-- ===== src/Workers/Reconciler.antt =====
-- labos/workers/reconciler.py: one pass over the durable state. The rows that a query returns are
-- visited one after the other; every change is written back and recorded. The labs and the whole
-- pass are in the child `Labs`.
pub mod Labs
pub mod Sweep
pub mod Swept
use Prim.Native.String.{compare}
use package.text.Mathlib.Text.{is_lt}
use labos.Prelude.{
  ℕ, ◌+◌, String, Bool, true, false, not, ◌&&◌, ◌||◌, Option, none, some, List, [], ◌∷◌,
}
use labos.Prelude.{
  ◌++◌, Result, ok, err, ltb, leb, is_none, ◌==◌, keep, contains, map, if◌then◌else◌,
}
use labos.Prelude.{string_eq, nat_eq}
use labos.Core.Enums.{
  LabState, RunState, ApprovalState, ExportState, lab_eq, approval_eq, lab_state_value,
}
use labos.Core.Enums.{run_state_value}
use labos.Core.Events.{EventRecord, system_event, write}
use labos.Db.Rows.{Db, LabRow, LabStorageRow, RunRow, ApprovalRow, ExportRow, SecretLeaseRow, Field}
use labos.Db.Rows.{
  lab_key, run_key, approval_key, export_key, lease_key, text, number, instant, null,
}
use labos.Security.SecretBroker.{lease_before}
use labos.Db.Table.{earlier, find, save, first_where, order_by}
use labos.Db.Changes.{save_approval, save_lab, save_export, save_lease, save_run}
use labos.Db.Platform.{Platform}
use labos.Db.Session.{each, ApiError, fault, World, Exec, pure, gets, inspect, modify, ◌>>=◌, ◌>>◌}
use labos.Storage.Allocator.{StorageAllocation}
use labos.Api.Labs.{storage_allocation_from_row}

abbrev pub reconciler_event :
    String → Option String → String → String → List (String × Field) → EventRecord
reconciler_event event_type lab_id resource_type resource_id payload =
    record (system_event event_type payload) {
      lab_id = lab_id;
      actor_id = some "reconciler";
      resource_type = some resource_type;
      resource_id = some resource_id;
    }

-- Approvals.

abbrev pub is_stale : ℕ → ApprovalRow → Bool
is_stale now row =
    row.state == ApprovalState.requested
    && elim row.expires_at [ none ↦ false | some t ↦ leb t now ]

abbrev pub expired_approval : ℕ → ApprovalRow → ApprovalRow
expired_approval now row = record row {
  state = ApprovalState.expired;
  approved = false;
  decided_by = some "reconciler";
  decided_at = some now;
}

abbrev pub fail_pending : LabRow → LabRow
fail_pending lab =
    if lab.state == LabState.pending_approval then record lab { state = LabState.failed } else lab

abbrev pub reject_expired : ExportRow → ExportRow
reject_expired export = record export {
  state = ExportState.rejected;
  denial_reason = some "approval request expired";
  approval_required = false;
}

abbrev pub fail_pending_lab : Option LabRow → Db → Db
fail_pending_lab none d = d
fail_pending_lab (some lab) d = save_lab (fail_pending lab) d

abbrev pub reject_expired_export : Option ExportRow → Db → Db
reject_expired_export none d = d
reject_expired_export (some export) d = save_export (reject_expired export) d

-- the branches on `approval.resource_type`
unfoldable pub expire_resource : ApprovalRow → Db → Db
expire_resource row d =
    if row.resource_type == "lab"
    then fail_pending_lab (find row.resource_id d.labs) d
    else if row.resource_type == "export"
    then reject_expired_export (find row.resource_id d.exports) d
    else d

abbrev approval_expired : ApprovalRow → EventRecord
approval_expired row = reconciler_event "approval.expired" row.lab_id "approval" row.id (
    ("approval_id", text row.id)
    ∷ ("resource_type", text row.resource_type)
    ∷ ("resource_id", text row.resource_id)
    ∷ ("action", text row.action)
    ∷ [])

abbrev pub approval_before : ApprovalRow → ApprovalRow → Bool
approval_before a b = earlier a.created_at a.id b.created_at b.id

module _ (os : Platform) (now : ℕ) where
  unfoldable pub expire_approval : ApprovalRow → Exec os.Disk (List String)
  expire_approval row = do
    modify (save_approval (expired_approval now row))
    modify (expire_resource row)
    write os now (approval_expired row)
    pure (row.id ∷ [])

  -- `_expire_stale_approvals`
  unfoldable pub expire_stale_approvals : Exec os.Disk (List String)
  expire_stale_approvals = do
    stale ← gets (λ d. order_by approval_before (keep (is_stale now) d.approvals))
    each expire_approval stale

-- Secret leases.

abbrev pub is_overdue_lease : ℕ → SecretLeaseRow → Bool
is_overdue_lease now row = is_none row.revoked_at && leb row.expires_at now

abbrev pub revoked : ℕ → SecretLeaseRow → SecretLeaseRow
revoked now row = record row { revoked_at = some now }

abbrev lease_expired : SecretLeaseRow → EventRecord
lease_expired row =
    reconciler_event "secret_lease.expired" (some row.lab_id) "secret_lease" row.id
      (("secret_name", text row.secret_name) ∷ ("lease_id", text row.id) ∷ [])

module _ (os : Platform) (now : ℕ) where
  unfoldable pub revoke_expired : SecretLeaseRow → Exec os.Disk (List String)
  revoke_expired row = do
    modify (save_lease (revoked now row))
    write os now (lease_expired row)
    pure (row.id ∷ [])

  -- `_revoke_expired_secret_leases`
  unfoldable pub revoke_expired_secret_leases : Exec os.Disk (List String)
  revoke_expired_secret_leases = do
    overdue ← gets (λ d. order_by lease_before (keep (is_overdue_lease now) d.secret_leases))
    each revoke_expired overdue

-- Runs.

abbrev pub is_active_run : RunState → Bool
is_active_run RunState.queued = true
is_active_run RunState.starting = true
is_active_run RunState.running = true
is_active_run _ = false

abbrev pub is_overdue_run : ℕ → RunRow → Bool
is_overdue_run now row =
    is_active_run row.state && elim row.timeout_at [ none ↦ false | some t ↦ leb t now ]

abbrev pub timed_out_run : ℕ → RunRow → RunRow
timed_out_run now row = record row { state = RunState.timed_out; finished_at = some now }

abbrev timeout_field : Option ℕ → Field
timeout_field none = null
timeout_field (some t) = instant t

abbrev run_timed_out : RunRow → EventRecord
run_timed_out row =
    record (reconciler_event "run.timed_out" (some row.lab_id) "run" row.id (
      ("state", text (run_state_value RunState.timed_out))
      ∷ ("timeout_at", timeout_field row.timeout_at)
      ∷ [])) { run_id = some row.id }

abbrev pub run_before : RunRow → RunRow → Bool
run_before a b = earlier a.created_at a.id b.created_at b.id

module _ (os : Platform) (now : ℕ) where
  unfoldable pub timeout_run : RunRow → Exec os.Disk (List String)
  timeout_run row = do
    modify (save_run (timed_out_run now row))
    write os now (run_timed_out row)
    pure (row.id ∷ [])

  -- `_timeout_overdue_runs`
  unfoldable pub timeout_overdue_runs : Exec os.Disk (List String)
  timeout_overdue_runs = do
    overdue ← gets (λ d. order_by run_before (keep (is_overdue_run now) d.runs))
    each timeout_run overdue
