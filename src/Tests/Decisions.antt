-- ===== src/Tests/Decisions.antt =====
-- Decisions about a lab's request, an export's request and an expired one.
use labos.Prelude.{◌+◌, true, ◌≡◌, refl, some, none, [], ◌∷◌, ok, err}
use labos.Core.Enums.{LabState, ExportState, ApprovalState}
use labos.Policy.Models.{RuntimeClass}
use labos.Db.Rows.{LabRow, ExportRow, ApprovalRow, empty_db, approval_key, lab_key, export_key}
use labos.Db.Table.{find, first_where}
use labos.Db.Session.{World, conflict, hours}
use labos.Api.App.{requested_row}
use labos.Api.Approvals.{decide_request}
use labos.Api.Approvals.Outcomes.{IsDecision, IsLabDecision, IsExportDecision}
use labos.Api.Approvals.Decisions.{
  decide_request-expired, decide_request-lab, decide_request-export,
}
use labos.Tests.Fixtures.{host, fresh}

abbrev lab_request : ApprovalRow
lab_request = requested_row 10 "a1" (some "lab") "lab" "lab" "lab.create" "reason" "agent"

abbrev export_request : ApprovalRow
export_request = requested_row 10 "a2" (some "lab") "export" "x" "export.release" "reason" "system"

abbrev destroyed_lab : LabRow
destroyed_lab = record {
  id = "lab";
  created_at = 5;
  profile_name = "red-zone";
  state = LabState.destroyed;
  runtime_class = RuntimeClass.microvm;
  destroy_attempts = 0;
  last_destroy_error = none;
}

-- an export that was denied while its approval was still requested
abbrev denied_export : ExportRow
denied_export = record {
  id = "x";
  created_at = 6;
  lab_id = "lab";
  run_id = none;
  source_path = "/lab/exports/a";
  state = ExportState.rejected;
  quarantine_path = "q" ∷ [];
  released_path = none;
  approval_required = true;
  sha256 = "digest";
  size_bytes = 7;
  denial_reason = some "leak";
}

abbrev world : World Unit
world = record fresh {
  db = record empty_db {
    labs = destroyed_lab ∷ [];
    approvals = lab_request ∷ export_request ∷ [];
    exports = denied_export ∷ [];
  };
}

found_lab_request : find "a1" world.db.approvals ≡ some lab_request
unfolding find first_where
found_lab_request = refl

found_export_request : find "a2" world.db.approvals ≡ some export_request
unfolding find first_where
found_export_request = refl

found_lab : find "lab" world.db.labs ≡ some destroyed_lab
unfolding find first_where
found_lab = refl

found_export : find "x" world.db.exports ≡ some denied_export
unfolding find first_where
found_export = refl

decide_request-expired_example :
    decide_request host
      (10 + hours 24)
      "approval.approved"
      ApprovalState.approved
      "a1"
      "alice"
      none
      world
    ≡ (err (conflict "approval_request_expired" "approval"), record world { db = world.committed })
decide_request-expired_example =
    decide_request-expired host (10 + hours 24) "approval.approved" ApprovalState.approved "a1"
      "alice" none world lab_request found_lab_request refl refl

decide_request-lab_example :
    (row' : ApprovalRow) × (lab' : LabRow) × ((decide_request host 20 "approval.approved"
        ApprovalState.approved "a1" "alice" none world).0
      ≡ ok row')
    × (find "a1"
          (decide_request host 20 "approval.approved" ApprovalState.approved "a1" "alice" none
            world).1.committed.approvals
        ≡ some row')
    × (find "lab"
          (decide_request host 20 "approval.approved" ApprovalState.approved "a1" "alice" none
            world).1.committed.labs
        ≡ some lab')
    × IsDecision 20 ApprovalState.approved "alice" none lab_request row'
    × IsLabDecision ApprovalState.approved destroyed_lab lab'
decide_request-lab_example =
    decide_request-lab host 20 "approval.approved" ApprovalState.approved "a1" "alice" none world
      lab_request found_lab_request refl refl refl destroyed_lab refl found_lab

decide_request-export_example :
    (row' : ApprovalRow) × (export' : ExportRow) × ((decide_request host 20 "approval.approved"
        ApprovalState.approved "a2" "alice" none world).0
      ≡ ok row')
    × (find "a2"
          (decide_request host 20 "approval.approved" ApprovalState.approved "a2" "alice" none
            world).1.committed.approvals
        ≡ some row')
    × (find "x"
          (decide_request host 20 "approval.approved" ApprovalState.approved "a2" "alice" none
            world).1.committed.exports
        ≡ some export')
    × IsDecision 20 ApprovalState.approved "alice" none export_request row'
    × IsExportDecision ApprovalState.approved none denied_export export'
decide_request-export_example =
    decide_request-export host 20 "approval.approved" ApprovalState.approved "a2" "alice" none world
      export_request found_export_request refl refl refl denied_export refl found_export
