-- ===== src/Api/Labs.antt =====
-- The lab endpoints of labos/api/app.py.
use labos.Prelude.{ℕ, String, Bool, true, false, none, some, [], ◌∷◌, ◌==◌}
use labos.Prelude.{Result, ok, err, string_eq}
use labos.Core.Enums.{LabState, lab_eq, lab_state_value}
use labos.Core.Events.{EventRecord, system_event, write}
use labos.Db.Rows.{LabRow, LabStorageRow, lab_key, text}
use labos.Db.Changes.{add_lab, add_storage, save_lab}
use labos.Db.Platform.{Platform}
use labos.Db.Session.{ApiError, Exec, pure, lift, modify, commit, raise_if, when, new_id}
use labos.Db.Session.{with_session, not_found, conflict, bad_request, fault, ◌>>=◌, ◌>>◌}
use labos.Policy.Models.{RequesterType, requester_type_value}
use labos.Policy.Models.{runtime_class_value}
use labos.Policy.HostMounts.{PolicyError, unknown_profile, invalid, type_error}
use labos.Policy.Engine.{RequestDecision, validate_request, join}
use labos.Storage.Allocator.{StoragePolicy, StorageAllocation, allocate, destroy}
use labos.Api.App.{App, require_lab, require_storage, record_approval_request, approval_requested}

-- the `except` clauses around `validate_request`
abbrev pub policy_failure : {A : Type 0} → Result PolicyError A → Result ApiError A
policy_failure (ok a) = ok a
policy_failure (err (unknown_profile m)) = err (not_found "profile")
policy_failure (err (invalid m)) = err (bad_request m)
policy_failure (err type_error) = err (fault "TypeError")

abbrev pub initial_state : Bool → LabState
initial_state true = LabState.pending_approval
initial_state false = LabState.approved

abbrev pub new_lab : ℕ → String → RequestDecision → LabRow
new_lab now id decision = record {
  id = id;
  created_at = now;
  profile_name = decision.profile_name;
  state = initial_state decision.approval_required;
  runtime_class = decision.runtime_class;
  destroy_attempts = 0;
  last_destroy_error = none;
}

abbrev pub new_storage : ℕ → String → StorageAllocation → LabStorageRow
new_storage now id a = record {
  id = id;
  created_at = now;
  lab_id = a.lab_id;
  persistence_mode = a.persistence_mode;
  root_path = a.root_path;
  workspace_path = a.workspace_path;
  exports_path = a.exports_path;
  quarantine_path = a.quarantine_path;
  snapshots_path = a.snapshots_path;
  workspace_mount_target = a.workspace_mount_target;
}

abbrev storage_policy : RequestDecision → StoragePolicy
storage_policy decision = record {
  filesystem_mode = decision.filesystem_mode;
  persistence_mode = decision.persistence_mode;
  disk_mb = decision.disk_mb;
  retention_days = decision.retention_days;
  snapshot_capable = true;
  workspace_mount_target = "/workspace";
}

abbrev lab_requested : RequesterType → LabRow → EventRecord
lab_requested requester row =
    record (system_event "lab.requested" (
      ("profile_name", text row.profile_name)
      ∷ ("runtime_class", text (runtime_class_value row.runtime_class))
      ∷ ("state", text (lab_state_value row.state))
      ∷ [])) {
        lab_id = some row.id;
        actor_type = requester_type_value requester;
        resource_type = some "lab";
        resource_id = some row.id;
      }

abbrev lab_destroyed : LabRow → EventRecord
lab_destroyed row =
    record (system_event "lab.destroyed" (("state", text (lab_state_value row.state)) ∷ [])) {
      lab_id = some row.id;
      actor_type = "human";
      resource_type = some "lab";
      resource_id = some row.id;
    }

-- `_storage_allocation_from_row`
abbrev pub storage_allocation_from_row : LabStorageRow → StorageAllocation
storage_allocation_from_row row = record {
  lab_id = row.lab_id;
  root_path = row.root_path;
  workspace_path = row.workspace_path;
  exports_path = row.exports_path;
  quarantine_path = row.quarantine_path;
  snapshots_path = row.snapshots_path;
  persistence_mode = row.persistence_mode;
  retention_days = 0;
  workspace_mount_target = row.workspace_mount_target;
}

module _ (os : Platform) (app : App) (now : ℕ) where
  -- the `if decision.approval_required:` block
  unfoldable pub request_lab_approval : RequesterType → String → RequestDecision → Exec os.Disk Unit
  request_lab_approval requester lab_id decision = do
    approval ←
        record_approval_request os now (some lab_id) "lab" lab_id "lab.create"
          (join decision.approval_reasons) (requester_type_value requester)
    write os now (approval_requested (some lab_id) none approval)

  -- `_create_lab_record`
  unfoldable pub create_lab_record : String → RequesterType → Exec os.Disk (LabRow × LabStorageRow)
  create_lab_record profile_name requester = do
    decision ← lift (
        policy_failure
          (validate_request app.profiles profile_name [] (requester_type_value requester)))
    lab_id ← new_id os
    a ← allocate os app.managed_storage_root lab_id (storage_policy decision)
    storage_id ← new_id os
    let row = new_lab now lab_id decision
    let storage_row = new_storage now storage_id a
    modify (add_lab row)
    modify (add_storage storage_row)
    when decision.approval_required (request_lab_approval requester lab_id decision)
    write os now (lab_requested requester row)
    pure (row, storage_row)

  unfoldable pub create_lab : String → RequesterType → Exec os.Disk (LabRow × LabStorageRow)
  create_lab profile_name requester =
      with_session (do response ← create_lab_record profile_name requester; commit; pure response)

  unfoldable pub get_lab : String → Exec os.Disk (LabRow × LabStorageRow)
  get_lab lab_id =
      with_session
        (do row ← require_lab lab_id; storage_row ← require_storage row.id; pure (row, storage_row))

  unfoldable pub destroy_lab : String → Exec os.Disk (LabRow × LabStorageRow)
  destroy_lab lab_id = with_session (do
    row ← require_lab lab_id
    storage_row ← require_storage row.id
    raise_if (row.state == LabState.destroyed) (conflict "lab_already_destroyed" "lab")
    destroy os app.managed_storage_root (storage_allocation_from_row storage_row)
    let gone = record row { state = LabState.destroyed }
    modify (save_lab gone)
    write os now (lab_destroyed gone)
    commit
    pure (gone, storage_row))
