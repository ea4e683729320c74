-- ===== src/Api/App.antt =====
-- What `create_app` of labos/api/app.py closes its endpoints over, and the row lookups that they
-- share.
use labos.Prelude.{ℕ, String, Option, none, some, List, [], ◌∷◌, ◌==◌, ◌+◌, string_eq, false}
use labos.Core.Enums.{ApprovalState}
use labos.Core.Events.{EventRecord, system_event}
use labos.Db.Rows.{
  FilePath, LabRow, LabStorageRow, RunRow, ApprovalRow, ExportRow, SnapshotRow, Field,
}
use labos.Db.Rows.{lab_key, run_key, approval_key, export_key, snapshot_key, text}
use labos.Db.Table.{find, first_where}
use labos.Db.Changes.{add_approval}
use labos.Db.Platform.{Platform}
use labos.Db.Session.{Exec, pure, gets, modify, or_raise, not_found, new_id, hours, ◌>>=◌, ◌>>◌}
use labos.Policy.Engine.{Profiles}

pub record App : Type 0 where
  pub profiles : Profiles
  pub managed_storage_root : FilePath
  pub default_run_timeout_minutes : ℕ
  pub max_pending_jobs_per_requester : ℕ

module _ {D : Type 0} where
  -- `session.get(LabRow, id)`, and 404 where there is none
  unfoldable pub require_lab : String → Exec D LabRow
  require_lab id = do found ← gets (λ d. find id d.labs); or_raise found (not_found "lab")

  unfoldable pub require_storage : String → Exec D LabStorageRow
  require_storage lab_id = do
    found ← gets (λ d. first_where (λ r. r.lab_id == lab_id) d.lab_storage)
    or_raise found (not_found "lab_storage")

  unfoldable pub require_run : String → Exec D RunRow
  require_run id = do found ← gets (λ d. find id d.runs); or_raise found (not_found "run")

  unfoldable pub require_approval : String → Exec D ApprovalRow
  require_approval id = do
    found ← gets (λ d. find id d.approvals)
    or_raise found (not_found "approval")

  unfoldable pub require_export : String → Exec D ExportRow
  require_export id = do found ← gets (λ d. find id d.exports); or_raise found (not_found "export")

  unfoldable pub require_snapshot : String → Exec D SnapshotRow
  require_snapshot id = do
    found ← gets (λ d. find id d.snapshots)
    or_raise found (not_found "snapshot")

abbrev pub requested_row :
    ℕ → String → Option String → String → String → String → String → String → ApprovalRow
requested_row now id lab_id resource_type resource_id action reason requested_by = record {
  id = id;
  created_at = now;
  lab_id = lab_id;
  resource_type = resource_type;
  resource_id = resource_id;
  action = action;
  reason = reason;
  requested_by = requested_by;
  state = ApprovalState.requested;
  approved = false;
  decision_comment = none;
  decided_by = none;
  expires_at = some (now + hours 24);
  decided_at = none;
}

-- `_record_approval_request`
unfoldable pub record_approval_request :
    (os : Platform)
    → ℕ
    → Option String
    → String
    → String
    → String
    → String
    → String
    → Exec os.Disk ApprovalRow
record_approval_request os now lab_id resource_type resource_id action reason requested_by = do
  id ← new_id os
  let row = requested_row now id lab_id resource_type resource_id action reason requested_by
  modify (add_approval row)
  pure row

-- the payload of the approval events
abbrev pub approval_payload : ApprovalRow → List (String × Field)
approval_payload row =
    ("approval_id", text row.id)
    ∷ ("resource_type", text row.resource_type)
    ∷ ("resource_id", text row.resource_id)
    ∷ ("action", text row.action)
    ∷ []

-- the event that follows a new approval request
abbrev pub approval_requested : Option String → Option String → ApprovalRow → EventRecord
approval_requested lab_id run_id row =
    record (system_event "approval.requested" (approval_payload row)) {
      lab_id = lab_id;
      run_id = run_id;
      actor_id = some "policy-engine";
      resource_type = some "approval";
      resource_id = some row.id;
    }
