-- ===== src/Api/Snapshots.antt =====
-- The snapshot endpoints of labos/api/app.py.
use labos.Prelude.{ℕ, String, Bool, not, Option, none, some, List, [], ◌∷◌}
use labos.Prelude.{Result, ok, err, and_then, ◌==◌, string_eq}
use labos.Core.Events.{EventRecord, system_event, write}
use labos.Db.Rows.{FilePath, LabRow, SnapshotRow, text}
use labos.Db.Table.{earlier, order_by}
use labos.Db.Changes.{add_snapshot}
use labos.Db.Platform.{Platform, ℤ}
use labos.Db.Session.{ApiError, Exec, pure, lift, gets, modify, commit, raise_if, new_id, each}
use labos.Db.Session.{with_session, conflict, fault, ◌>>=◌, ◌>>◌}
use labos.Policy.Models.{RequesterType, requester_type_value}
use labos.Storage.Metadata.{
  SnapshotError, unsupported_runtime, metadata_error, uncaught, SnapshotMetadata,
}
use labos.Storage.Snapshots.{create_snapshot, load_metadata, restore_snapshot}
use labos.Api.App.{App, require_lab, require_storage, require_run, require_snapshot}

-- `SnapshotResponse`, without `updated_at`
pub record SnapshotResponse : Type 0 where
  pub id : String
  pub lab_id : String
  pub backend_ref : FilePath
  pub run_id : Option String
  pub profile_name : Option String
  pub runtime_class : Option String
  pub state : Option String
  pub manifest_path : Option String
  pub sha256 : Option String
  pub size_bytes : Option ℤ
  pub restored_at : Option ℕ
  pub restored_lab_id : Option String
  pub created_at : ℕ

module _ (os : Platform) where
  abbrev pub parsed_date : Option ℕ → Result ApiError (Option ℕ)
  parsed_date none = err (fault "ValueError")
  parsed_date (some t) = ok (some t)

  -- `datetime.fromisoformat(metadata.restored_at)`, where there is one
  abbrev pub restored_date : Option String → Result ApiError (Option ℕ)
  restored_date none = ok none
  restored_date (some s) = parsed_date (os.fromisoformat s)

  abbrev pub described : SnapshotRow → SnapshotMetadata → Option ℕ → SnapshotResponse
  described row m restored_at = record {
    id = row.id;
    lab_id = row.lab_id;
    backend_ref = row.backend_ref;
    run_id = m.run_id;
    profile_name = some m.profile_name;
    runtime_class = some m.runtime_class;
    state = some m.state;
    manifest_path = some m.manifest_path;
    sha256 = some m.sha256;
    size_bytes = some m.size_bytes;
    restored_at = restored_at;
    restored_lab_id = m.restored_lab_id;
    created_at = row.created_at;
  }

  -- `_snapshot_response_from_row`
  unfoldable pub snapshot_response :
      SnapshotRow → Option SnapshotMetadata → Result ApiError SnapshotResponse
  snapshot_response row none = ok (record {
    id = row.id;
    lab_id = row.lab_id;
    backend_ref = row.backend_ref;
    run_id = none;
    profile_name = none;
    runtime_class = none;
    state = none;
    manifest_path = none;
    sha256 = none;
    size_bytes = none;
    restored_at = none;
    restored_lab_id = none;
    created_at = row.created_at;
  })
  snapshot_response row (some m) =
      and_then (restored_date m.restored_at) λ restored_at. ok (described row m restored_at)

-- no handler catches a `SnapshotError` when snapshots are listed
abbrev pub listing_failure : {A : Type 0} → Result SnapshotError A → Result ApiError A
listing_failure (ok m) = ok m
listing_failure (err (unsupported_runtime m)) = err (fault m)
listing_failure (err (metadata_error m)) = err (fault m)
listing_failure (err (uncaught m)) = err (fault m)

abbrev pub creation_failure : {A : Type 0} → Result SnapshotError A → Result ApiError A
creation_failure (ok m) = ok m
creation_failure (err (unsupported_runtime m)) =
    err (conflict "unsupported_snapshot_runtime" "snapshot")
creation_failure (err (metadata_error m)) = err (fault m)
creation_failure (err (uncaught m)) = err (fault m)

abbrev pub restore_failure : {A : Type 0} → Result SnapshotError A → Result ApiError A
restore_failure (ok m) = ok m
restore_failure (err (unsupported_runtime m)) =
    err (conflict "unsupported_snapshot_runtime" "snapshot")
restore_failure (err (metadata_error m)) = err (conflict m "snapshot")
restore_failure (err (uncaught m)) = err (fault m)

abbrev snapshot_created :
    RequesterType → Option String → SnapshotRow → SnapshotMetadata → EventRecord
snapshot_created requester run_id row m =
    record (system_event "snapshot.created" (
      ("backend_ref", text m.backend_ref)
      ∷ ("runtime_class", text m.runtime_class)
      ∷ ("state", text m.state)
      ∷ [])) {
        lab_id = some row.lab_id;
        run_id = run_id;
        actor_type = requester_type_value requester;
        resource_type = some "snapshot";
        resource_id = some row.id;
      }

abbrev snapshot_restored : RequesterType → LabRow → SnapshotRow → SnapshotMetadata → EventRecord
snapshot_restored requester target_lab row m =
    record (system_event "snapshot.restored" (
      ("source_lab_id", text row.lab_id)
      ∷ ("restored_lab_id", text target_lab.id)
      ∷ ("state", text m.state)
      ∷ [])) {
        lab_id = some target_lab.id;
        run_id = m.run_id;
        actor_type = requester_type_value requester;
        resource_type = some "snapshot";
        resource_id = some row.id;
      }

-- the check that a given run belongs to the lab
unfoldable pub check_snapshot_run : {D : Type 0} → LabRow → Option String → Exec D Unit
check_snapshot_run lab none = pure tt
check_snapshot_run lab (some run_id) = do
  run ← require_run run_id
  raise_if (not (run.lab_id == lab.id)) (conflict "snapshot_run_mismatch" "snapshot")

abbrev pub snapshot_before : SnapshotRow → SnapshotRow → Bool
snapshot_before a b = earlier a.created_at a.id b.created_at b.id

module _ (os : Platform) (app : App) (now : ℕ) where
  unfoldable pub describe_snapshot : SnapshotRow → Exec os.Disk (List SnapshotResponse)
  unfolding snapshot_response
  describe_snapshot row = do
    loaded ← load_metadata os row
    metadata ← lift (listing_failure loaded)
    response ← lift (snapshot_response os row metadata)
    pure (response ∷ [])

  unfoldable pub list_snapshots : Exec os.Disk (List SnapshotResponse)
  list_snapshots =
      with_session
        (do rows ← gets (λ d. order_by snapshot_before d.snapshots); each describe_snapshot rows)

  abbrev pub new_snapshot : String → LabRow → SnapshotMetadata → SnapshotRow
  new_snapshot snapshot_id lab m = record {
    id = snapshot_id;
    created_at = now;
    lab_id = lab.id;
    backend_ref = os.to_path m.backend_ref;
  }

  unfoldable pub create_snapshot_endpoint :
      String → Option String → RequesterType → Exec os.Disk SnapshotResponse
  unfolding snapshot_response
  create_snapshot_endpoint lab_id run_id requester = with_session (do
    lab ← require_lab lab_id
    storage ← require_storage lab_id
    check_snapshot_run lab run_id
    snapshot_id ← new_id os
    created ← create_snapshot os now snapshot_id lab storage run_id
    metadata ← lift (creation_failure created)
    let row = new_snapshot snapshot_id lab metadata
    modify (add_snapshot row)
    write os now (snapshot_created requester run_id row metadata)
    commit
    lift (snapshot_response os row (some metadata)))

  unfoldable pub restore_snapshot_endpoint :
      String → String → RequesterType → Exec os.Disk SnapshotResponse
  unfolding snapshot_response
  restore_snapshot_endpoint snapshot_id lab_id requester = with_session (do
    snapshot ← require_snapshot snapshot_id
    target_lab ← require_lab lab_id
    target_storage ← require_storage target_lab.id
    restored ← restore_snapshot os now snapshot target_lab target_storage
    metadata ← lift (restore_failure restored)
    write os now (snapshot_restored requester target_lab snapshot metadata)
    commit
    lift (snapshot_response os snapshot (some metadata)))
