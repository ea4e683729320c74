-- ===== src/Api/Exports.antt =====
-- The export endpoints of labos/api/app.py.
use labos.Prelude.{ℕ, String, not, Option, none, some, List, [], ◌∷◌, ◌==◌}
use labos.Prelude.{Result, ok, err, string_eq}
use labos.Core.Events.{EventRecord, system_event, write}
use labos.Db.Rows.{FilePath, LabRow, ExportRow, Field, export_key, text, path, number}
use labos.Db.Rows.{boolean, null}
use labos.Db.Changes.{add_export, save_export}
use labos.Db.Platform.{Platform}
use labos.Db.Session.{ApiError, Exec, pure, raise, lift, modify, commit, raise_if, when, new_id}
use labos.Db.Session.{with_session, not_found, conflict, fault, ◌>>=◌, ◌>>◌}
use labos.Policy.Models.{RequesterType, requester_type_value}
use labos.Security.ExportGate.{
  GateError, ExportStageResult, stage_export, release_export, deny_export,
}
use labos.Api.App.{App, require_lab, require_storage, require_run, require_export}
use labos.Api.App.{record_approval_request, approval_requested}

abbrev pub gate_failure : GateError → ApiError
gate_failure (GateError.source_not_found p) = not_found "export_source"
gate_failure (GateError.policy m) = conflict m "export"
gate_failure (GateError.state m) = conflict m "export"
gate_failure (GateError.uncaught m) = fault m

abbrev pub gate_result : Result GateError ExportStageResult → Result ApiError ExportStageResult
gate_result (ok r) = ok r
gate_result (err e) = err (gate_failure e)

abbrev export_event :
    String
    → String
    → Option String
    → Option String
    → String
    → String
    → List (String × Field)
    → EventRecord
export_event event_type lab_id run_id actor_id actor_type export_id payload =
    record (system_event event_type payload) {
      lab_id = some lab_id;
      run_id = run_id;
      actor_type = actor_type;
      actor_id = actor_id;
      resource_type = some "export";
      resource_id = some export_id;
    }

abbrev export_requested : RequesterType → String → Option String → String → String → EventRecord
export_requested requester lab_id run_id export_id source_path =
    export_event "export.requested" lab_id run_id none (requester_type_value requester) export_id
      (("export_id", text export_id) ∷ ("source_path", text source_path) ∷ [])

abbrev pub new_export : ℕ → String → String → Option String → ExportStageResult → ExportRow
new_export now export_id lab_id run_id staged = record {
  id = export_id;
  created_at = now;
  lab_id = lab_id;
  run_id = run_id;
  source_path = staged.provenance.source_path;
  state = staged.state;
  quarantine_path = staged.provenance.quarantine_path;
  released_path = staged.provenance.released_path;
  approval_required = staged.approval_required;
  sha256 = staged.provenance.digest;
  size_bytes = staged.provenance.size_bytes;
  denial_reason = none;
}

abbrev export_staged : ExportRow → EventRecord
export_staged row =
    export_event "export.staged" row.lab_id row.run_id (some "export-gate") "system" row.id (
      ("export_id", text row.id)
      ∷ ("source_path", text row.source_path)
      ∷ ("quarantine_path", path row.quarantine_path)
      ∷ ("sha256", text row.sha256)
      ∷ ("size_bytes", number row.size_bytes)
      ∷ ("approval_required", boolean row.approval_required)
      ∷ [])

abbrev release_blocked : ExportRow → String → EventRecord
release_blocked row reason =
    export_event "export.release_blocked" row.lab_id row.run_id (some "export-gate") "system" row.id
      (("export_id", text row.id) ∷ ("reason", text reason) ∷ [])

abbrev optional_path : Option FilePath → Field
optional_path none = null
optional_path (some p) = path p

abbrev optional_text : Option String → Field
optional_text none = null
optional_text (some s) = text s

abbrev export_released : ExportRow → EventRecord
export_released row =
    export_event "export.released" row.lab_id row.run_id (some "export-gate") "system" row.id
      (("export_id", text row.id) ∷ ("released_path", optional_path row.released_path) ∷ [])

abbrev export_denied : ExportRow → EventRecord
export_denied row =
    export_event "export.denied" row.lab_id row.run_id none "human" row.id
      (("export_id", text row.id) ∷ ("reason", optional_text row.denial_reason) ∷ [])

-- the check that a given run belongs to the lab
unfoldable pub check_run : {D : Type 0} → LabRow → Option String → Exec D Unit
check_run lab none = pure tt
check_run lab (some run_id) = do
  run ← require_run run_id
  raise_if (not (run.lab_id == lab.id)) (conflict "export_run_mismatch" "export")

abbrev pub released_row : ExportRow → ExportStageResult → ExportRow
released_row row released = record row {
  state = released.state;
  released_path = released.provenance.released_path;
  denial_reason = none;
}

abbrev pub denied_row : ExportRow → ExportStageResult → ExportRow
denied_row row denied = record row {
  state = denied.state;
  denial_reason = denied.denial_reason;
  released_path = none;
}

module _ (os : Platform) (app : App) (now : ℕ) where
  -- the `if staged.approval_required:` block
  unfoldable pub request_export_approval : String → Option String → String → Exec os.Disk Unit
  request_export_approval lab_id run_id export_id = do
    approval ←
        record_approval_request os now (some lab_id) "export" export_id "export.release"
          "profile requires export approval" "system"
    write os now (approval_requested (some lab_id) run_id approval)

  unfoldable pub create_export :
      String → String → Option String → RequesterType → Exec os.Disk ExportRow
  create_export lab_id source_path run_id requester = with_session (do
    lab ← require_lab lab_id
    storage ← require_storage lab_id
    check_run lab run_id
    export_id ← new_id os
    write os now (export_requested requester lab.id run_id export_id source_path)
    result ← stage_export os app.profiles export_id lab storage source_path run_id
    staged ← lift (gate_result result)
    let row = new_export now export_id lab.id run_id staged
    modify (add_export row)
    write os now (export_staged row)
    when staged.approval_required (request_export_approval lab.id run_id export_id)
    commit
    pure row)

  -- what follows the gate in `release_export`: a policy refusal is recorded and committed
  unfoldable pub finish_release :
      ExportRow → Result GateError ExportStageResult → Exec os.Disk ExportRow
  finish_release row (ok released) = do
    let row' = released_row row released
    modify (save_export row')
    write os now (export_released row')
    commit
    pure row'
  finish_release row (err (GateError.policy m)) = do
    write os now (release_blocked row m)
    commit
    raise (conflict m "export")
  finish_release row (err e) = raise (gate_failure e)

  unfoldable pub release_export_endpoint : String → Exec os.Disk ExportRow
  unfolding finish_release
  release_export_endpoint export_id = with_session (do
    row ← require_export export_id
    storage ← require_storage row.lab_id
    released ← release_export os row storage
    finish_release row released)

  unfoldable pub deny_export_endpoint : String → String → Exec os.Disk ExportRow
  deny_export_endpoint export_id reason = with_session (do
    row ← require_export export_id
    denied ← lift (gate_result (deny_export row reason))
    let row' = denied_row row denied
    modify (save_export row')
    write os now (export_denied row')
    commit
    pure row')
