-- ===== src/Workers/Reconciler/Labs.antt =====
-- labos/workers/reconciler.py: the labs, the runtime inventory, and `reconcile`. The rows that a
-- session has loaded show every later change, so a loop over them is a loop over the current rows.
use Prim.Native.String.{compare}
use package.text.Mathlib.Text.{is_lt}
use labos.Prelude.{ℕ, ◌+◌, String, Bool, not, ◌&&◌, Option, none, some, List, [], ◌∷◌}
use labos.Prelude.{◌++◌, Result, ok, err, leb, ◌==◌, keep, contains, if◌then◌else◌, string_eq}
use labos.Core.Enums.{LabState, lab_eq, lab_state_value}
use labos.Core.Events.{EventRecord, write}
use labos.Db.Rows.{Db, LabRow, LabStorageRow, Field, lab_key, text, number, null}
use labos.Db.Table.{earlier, find, order_by}
use labos.Db.Changes.{save_lab}
use labos.Db.Platform.{Platform}
use labos.Runtimes.Base.{LabInspection}
use labos.Db.Session.{
  raise, fault, attempt, each, ApiError, Exec, pure, gets, inspect, modify, ◌>>=◌, ◌>>◌,
}
use labos.Storage.Allocator.{StorageAllocation}
use labos.Api.Listings.{storage_of as last_storage}
use labos.Api.Labs.{storage_allocation_from_row}
use labos.Workers.Reconciler.{reconciler_event, expire_stale_approvals}
use labos.Workers.Reconciler.{revoke_expired_secret_leases, timeout_overdue_runs}

pub record ReconciliationReport : Type 0 where
  pub failed_lab_ids : List String
  pub destroyed_lab_ids : List String
  pub failed_destroy_lab_ids : List String
  pub orphaned_runtime_lab_ids : List String
  pub zombie_lab_ids : List String
  pub expired_approval_ids : List String
  pub revoked_secret_lease_ids : List String
  pub timed_out_run_ids : List String

abbrev pub lab_before : LabRow → LabRow → Bool
lab_before a b = earlier a.created_at a.id b.created_at b.id

abbrev pub storage_of : String → Db → Option LabStorageRow
storage_of lab_id d = last_storage lab_id d.lab_storage

abbrev optional_text : Option String → Field
optional_text none = null
optional_text (some s) = text s

-- `lab.destroy_failed` and `lab.destroy_retry_failed`
abbrev destroy_event : String → ℕ → LabRow → EventRecord
destroy_event event_type max_attempts lab = reconciler_event event_type (some lab.id) "lab" lab.id (
    ("attempt", number lab.destroy_attempts)
    ∷ ("max_attempts", number max_attempts)
    ∷ ("reason", optional_text lab.last_destroy_error)
    ∷ [])

abbrev lab_destroyed : LabRow → EventRecord
lab_destroyed lab =
    reconciler_event "lab.destroyed" (some lab.id) "lab" lab.id
      (("attempt", number lab.destroy_attempts) ∷ ("state", text (lab_state_value lab.state)) ∷ [])

abbrev pub lost_storage : LabRow → LabRow
lost_storage lab = record lab {
  state = LabState.failed;
  last_destroy_error = some "missing_storage_record";
}

abbrev pub attempted : LabRow → LabRow
attempted lab = record lab { destroy_attempts = lab.destroy_attempts + 1 }

abbrev pub attempt_failed : String → LabRow → LabRow
attempt_failed error lab = record lab { last_destroy_error = some error }

abbrev pub given_up : LabRow → LabRow
given_up lab = record lab { state = LabState.failed }

abbrev pub gone : LabRow → LabRow
gone lab = record lab { state = LabState.destroyed; last_destroy_error = none }

pub data DestroyOutcome : Type 0 where
  destroyed failed_destroy : String → DestroyOutcome

pub data RuntimeFinding : Type 0 where
  orphaned zombie : String → RuntimeFinding

module _ (os : Platform) (describe : ApiError → String) (now max_attempts : ℕ) where
  unfoldable pub give_up : LabRow → Exec os.Disk (List DestroyOutcome)
  give_up lab = do
    modify (save_lab (given_up lab))
    write os now (destroy_event "lab.destroy_failed" max_attempts (given_up lab))
    pure (failed_destroy lab.id ∷ [])

  -- the `except` clause
  unfoldable pub after_failure : LabRow → Exec os.Disk (List DestroyOutcome)
  unfolding give_up
  after_failure lab = do
    modify (save_lab lab)
    write os now (destroy_event "lab.destroy_retry_failed" max_attempts lab)
    if leb max_attempts lab.destroy_attempts then give_up lab else pure []

  unfoldable pub after_attempt : LabRow → Result ApiError Unit → Exec os.Disk (List DestroyOutcome)
  unfolding after_failure
  after_attempt lab (err e) = after_failure (attempt_failed (describe e) lab)
  after_attempt lab (ok u) = do
    modify (save_lab (gone lab))
    write os now (lab_destroyed (gone lab))
    pure (destroyed lab.id ∷ [])

  module _ (destroy : StorageAllocation → Exec os.Disk Unit) where
    -- one round of the loop of `_retry_destroying_labs`
    unfoldable pub retry_lab : LabRow → Option LabStorageRow → Exec os.Disk (List DestroyOutcome)
    unfolding after_attempt
    retry_lab lab none = do
      modify (save_lab (lost_storage lab))
      write os now (destroy_event "lab.destroy_failed" max_attempts (lost_storage lab))
      pure (failed_destroy lab.id ∷ [])
    retry_lab lab (some storage) = do
      modify (save_lab (attempted lab))
      outcome ← attempt (destroy (storage_allocation_from_row storage))
      after_attempt (attempted lab) outcome

    unfoldable pub retry_destroying_lab : LabRow → Exec os.Disk (List DestroyOutcome)
    retry_destroying_lab lab = do storage ← gets (storage_of lab.id); retry_lab lab storage

  -- `_retry_destroying_labs`
  unfoldable pub retry_destroying_labs :
      Option (StorageAllocation → Exec os.Disk Unit) → Exec os.Disk (List DestroyOutcome)
  retry_destroying_labs none = pure []
  retry_destroying_labs (some destroy) = do
    labs ← gets (λ d. order_by lab_before (keep (λ r. r.state == LabState.destroying) d.labs))
    each (retry_destroying_lab destroy) labs

-- `failure_reason`
abbrev pub failure_reason : (os : Platform) → os.Disk → Option LabStorageRow → Option String
failure_reason os disk none = some "missing_storage_record"
failure_reason os disk (some storage) =
    if os.exists disk storage.root_path then none else some "missing_storage_root"

abbrev pub failed_lab : LabRow → LabRow
failed_lab lab = record lab { state = LabState.failed }

module _ (os : Platform) (now : ℕ) where
  unfoldable pub fail_lab : LabRow → Option String → Exec os.Disk (List String)
  fail_lab lab none = pure []
  fail_lab lab (some reason) = do
    modify (save_lab (failed_lab lab))
    write os now (
        reconciler_event "lab.reconciliation_failed" (some lab.id) "lab" lab.id
          (("reason", text reason) ∷ ("state", text (lab_state_value LabState.failed)) ∷ []))
    pure (lab.id ∷ [])

  unfoldable pub check_storage : LabRow → Exec os.Disk (List String)
  unfolding fail_lab
  check_storage lab = do
    storage ← gets (storage_of lab.id)
    reason ← inspect (λ disk. failure_reason os disk storage)
    fail_lab lab reason

  -- one round of the loop over the labs
  unfoldable pub check_lab : LabRow → Exec os.Disk (List String)
  unfolding check_storage
  check_lab lab = if lab.state == LabState.destroyed then pure [] else check_storage lab

  unfoldable pub check_labs : Exec os.Disk (List String)
  check_labs = do labs ← gets (λ d. order_by lab_before d.labs); each check_lab labs

-- `_is_zombie_lab`
unfoldable pub is_zombie_lab : LabState → String → Bool
is_zombie_lab lab_state runtime_status =
    contains ("created" ∷ "restarting" ∷ "running" ∷ "paused" ∷ []) runtime_status
    && not (
        contains
          (LabState.provisioning ∷ LabState.running ∷ LabState.stopped ∷ LabState.destroying ∷ [])
          lab_state)

abbrev inspection_payload : LabInspection → List (String × Field)
inspection_payload i =
    ("backend", text i.backend)
    ∷ ("container_name", text i.container_name)
    ∷ ("status", text i.status)
    ∷ []

module _ (os : Platform) (now : ℕ) where
  unfoldable pub report_zombie : LabInspection → LabRow → Exec os.Disk (List RuntimeFinding)
  report_zombie i lab = do
    write os now (
        reconciler_event "runtime_lab.zombie_detected" (some lab.id) "runtime_lab" i.lab_id
          (inspection_payload i ++ ("lab_state", text (lab_state_value lab.state)) ∷ []))
    pure (zombie i.lab_id ∷ [])

  unfoldable pub judge : LabInspection → Option LabRow → Exec os.Disk (List RuntimeFinding)
  unfolding report_zombie
  judge i none = do
    write os now (
        reconciler_event "runtime_lab.orphan_detected" none "runtime_lab" i.lab_id
          (inspection_payload i))
    pure (orphaned i.lab_id ∷ [])
  judge i (some lab) = if is_zombie_lab lab.state i.status then report_zombie i lab else pure []

  unfoldable pub check_inspection : LabInspection → Exec os.Disk (List RuntimeFinding)
  unfolding judge
  check_inspection i = do lab ← gets (λ d. find i.lab_id d.labs); judge i lab

  unfoldable pub check_inventory :
      Option (Result String (List LabInspection)) → Exec os.Disk (List RuntimeFinding)
  check_inventory none = pure []
  check_inventory (some (err e)) = raise (fault e)
  check_inventory (some (ok inspections)) = each check_inspection inspections

-- `list.sort` of identifiers
unfoldable pub sorted : List String → List String
sorted = order_by (λ a b. is_lt (compare a b))

abbrev destroyed_ids : List DestroyOutcome → List String
destroyed_ids [] = []
destroyed_ids (destroyed id ∷ rest) = id ∷ destroyed_ids rest
destroyed_ids (failed_destroy id ∷ rest) = destroyed_ids rest

abbrev failed_destroy_ids : List DestroyOutcome → List String
failed_destroy_ids [] = []
failed_destroy_ids (destroyed id ∷ rest) = failed_destroy_ids rest
failed_destroy_ids (failed_destroy id ∷ rest) = id ∷ failed_destroy_ids rest

abbrev orphaned_ids : List RuntimeFinding → List String
orphaned_ids [] = []
orphaned_ids (orphaned id ∷ rest) = id ∷ orphaned_ids rest
orphaned_ids (zombie id ∷ rest) = orphaned_ids rest

abbrev zombie_ids : List RuntimeFinding → List String
zombie_ids [] = []
zombie_ids (orphaned id ∷ rest) = zombie_ids rest
zombie_ids (zombie id ∷ rest) = id ∷ zombie_ids rest

-- the fields of `ReconciliationService`, with what `list_managed_labs` of the inventory returns or
-- raises
pub record ReconciliationService (os : Platform) : Type 0 where
  pub runtime_inventory : Option (Result String (List LabInspection))
  pub storage_destroyer : Option (StorageAllocation → Exec os.Disk Unit)
  pub max_destroy_attempts : ℕ

unfoldable pub reconcile :
    (os : Platform)
    → (ApiError → String)
    → ReconciliationService os
    → ℕ
    → Exec os.Disk ReconciliationReport
reconcile os describe service now = do
  expired ← expire_stale_approvals os now
  leases ← revoke_expired_secret_leases os now
  runs ← timeout_overdue_runs os now
  outcomes ←
      retry_destroying_labs os describe now service.max_destroy_attempts service.storage_destroyer
  failed ← check_labs os now
  findings ← check_inventory os now service.runtime_inventory
  pure (record {
    failed_lab_ids = sorted failed;
    destroyed_lab_ids = sorted (destroyed_ids outcomes);
    failed_destroy_lab_ids = sorted (failed_destroy_ids outcomes);
    orphaned_runtime_lab_ids = sorted (orphaned_ids findings);
    zombie_lab_ids = sorted (zombie_ids findings);
    expired_approval_ids = sorted expired;
    revoked_secret_lease_ids = sorted leases;
    timed_out_run_ids = sorted runs;
  })
