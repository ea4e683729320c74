-- ===== src/Tests/Gates.antt =====
-- What the export gate and the secret broker let through.
use labos.Prelude.{◌≡◌, refl, none, [], ◌∷◌, ok}
use labos.Core.Enums.{LabState}
use labos.Policy.Models.{PersistenceMode}
use labos.Policy.Values.{lookup}
use labos.Policy.PosixPaths.{parse}
use labos.Policy.Profiles.{default_profiles, safe_dev}
use labos.Policy.Engine.{Profiles, decide_export, validate_export, get_profile}
use labos.Db.Rows.{LabRow, LabStorageRow, Db, FilePath, empty_db, lab_key}
use labos.Db.Table.{find}
use labos.Security.ExportGate.{admit_source, resolve_managed_source}
use labos.Security.ExportGate.Sources.{Admitted, admit_source-Admitted}
use labos.Db.Session.{World, ◌>>=◌}
use labos.Security.SecretBroker.{check_issue, add_issued, issue_lease, new_lease, resolve}
use labos.Security.SecretBroker.Issuing.{Issuable, IsLease, issue_lease-Issuable, issue_lease-never}
use labos.Tests.Fixtures.{host, fresh}
use labos.Db.Rows.{SecretLeaseRow}

abbrev pub lab : LabRow
lab = record {
  id = "lab";
  created_at = 5;
  profile_name = "safe-dev";
  state = LabState.approved;
  runtime_class = safe_dev.runtime_class;
  destroy_attempts = 0;
  last_destroy_error = none;
}

abbrev pub storage : LabStorageRow
storage = record {
  id = "storage";
  created_at = 5;
  lab_id = "lab";
  persistence_mode = PersistenceMode.ephemeral;
  root_path = "srv" ∷ "lab" ∷ [];
  workspace_path = "srv" ∷ "lab" ∷ "workspace" ∷ [];
  exports_path = "srv" ∷ "lab" ∷ "exports" ∷ [];
  quarantine_path = "srv" ∷ "lab" ∷ "quarantine" ∷ [];
  snapshots_path = "srv" ∷ "lab" ∷ "snapshots" ∷ [];
  workspace_mount_target = "/workspace";
}

abbrev report : FilePath
report = "srv" ∷ "lab" ∷ "exports" ∷ "report.txt" ∷ []

admitted :
    admit_source host default_profiles tt lab storage "/lab/exports/report.txt"
    ≡ ok (decide_export safe_dev "/lab/exports/report.txt", report)
unfolding admit_source validate_export get_profile lookup resolve_managed_source parse
admitted = refl

admit_source-Admitted_example :
    Admitted host tt storage default_profiles lab "/lab/exports/report.txt"
      (decide_export safe_dev "/lab/exports/report.txt")
      report
admit_source-Admitted_example =
    admit_source-Admitted host tt storage default_profiles lab "/lab/exports/report.txt"
      (decide_export safe_dev "/lab/exports/report.txt") report admitted

-- profiles of which one lists a secret
abbrev profiles : Profiles
profiles = ("safe-dev", record safe_dev { allowed_secret_names = "TOKEN" ∷ [] }) ∷ []

abbrev db : Db
db = record empty_db { labs = lab ∷ [] }

abbrev before_issue : World Unit
before_issue = record fresh { db = db }

abbrev issued_row : SecretLeaseRow
issued_row = new_lease 7 5 (host.uuid4 before_issue.drawn) "lab" "TOKEN"

issued :
    issue_lease host profiles 7 "lab" "TOKEN" 5 before_issue
    ≡ (ok (ok issued_row), (issue_lease host profiles 7 "lab" "TOKEN" 5 before_issue).1)
unfolding issue_lease check_issue add_issued find get_profile lookup resolve ◌>>=◌
issued = refl

issue_lease-Issuable_example :
    Issuable host profiles db "lab" "TOKEN" 5 × IsLease "lab" "TOKEN" 5 7 issued_row
issue_lease-Issuable_example =
    issue_lease-Issuable host profiles 7 "lab" "TOKEN" 5 issued_row before_issue _ issued

issue_lease-never_example : ¬ (
    issue_lease host default_profiles 7 "lab" "TOKEN" 5 before_issue
    ≡ (ok (ok issued_row), before_issue))
issue_lease-never_example =
    issue_lease-never host 7 "lab" "TOKEN" 5 issued_row before_issue before_issue
