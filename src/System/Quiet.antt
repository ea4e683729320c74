-- ===== src/System/Quiet.antt =====
-- The parts of the endpoints and of the reconciler that commit nothing.
pub mod Services
pub mod Snapshots
pub mod Answers
pub mod Reconciliation
use labos.Prelude.{
  ℕ, String, ◌≡◌, Bool, true, false, Option, none, some, List, [], ◌∷◌, Result, ok, err,
}
use labos.Core.Enums.{ApprovalState, SchedulerAction, export_eq, approval_eq, lab_eq}
use labos.Core.Events.{EventRecord, write}
use labos.Policy.Models.{RequesterType}
use labos.Policy.Engine.{Profiles, RequestDecision, ExportDecision}
use labos.Db.Rows.{
  FilePath, LabRow, LabStorageRow, ApprovalRow, ExportRow, SecretLeaseRow, RunRow, SchedulerJobRow,
}
use labos.Db.Platform.{Platform}
use labos.Db.Session.{ApiError, Exec, World, pure, ◌>>=◌, ◌>>◌}
use labos.Db.Quiet.{Quiet, quiet_rules}
use labos.Storage.Allocator.{
  StoragePolicy, StorageAllocation, allocate, assert_managed_path, destroy,
}
use labos.Security.ExportGate.{
  GateError, ExportStageResult, quarantine, stage_export, copy_out, release_export,
}
use labos.Security.SecretBroker.{LeaseError, add_issued, issue_lease}
use labos.Workers.Scheduler.{
  SchedulerJobCreateRequest, add_enqueued, enqueue, or_assert, perform, run_job, run_found,
  run_next,
}
use labos.Workers.Reconciler.{
  expire_approval, expire_stale_approvals, revoke_expired, revoke_expired_secret_leases,
  timeout_run, timeout_overdue_runs,
}
use labos.Workers.Reconciler.Labs.{
  ReconciliationService, give_up, after_failure, after_attempt, retry_lab, retry_destroying_lab,
  retry_destroying_labs, fail_lab, check_storage, check_lab, check_labs, report_zombie, judge,
  check_inspection, check_inventory, reconcile,
}
use labos.Runtimes.Base.{LabInspection}
use labos.Api.App.{
  App, require_lab, require_storage, require_run, require_approval, require_export,
  record_approval_request,
}
use labos.Api.Labs.{request_lab_approval, create_lab_record}
use labos.Api.Runs.{create_run_record}
use labos.Api.Approvals.{
  refuse_expired, ensure_approval_pending, decide_lab, decide_export, decide_resource,
  apply_approval_decision,
}
use labos.Api.Exports.{check_run, request_export_approval}
use labos.Api.SchedulerJobs.{create_lab_callback, create_run_callback}

module _ {D : Type 0} where
  pub require_lab-Quiet : (id : String) → Quiet (require_lab {D = D} id)
  unfolding require_lab
  require_lab-Quiet id = search (quiet_rules)

  pub require_storage-Quiet : (id : String) → Quiet (require_storage {D = D} id)
  unfolding require_storage
  require_storage-Quiet id = search (quiet_rules, require_lab-Quiet)

  pub require_run-Quiet : (id : String) → Quiet (require_run {D = D} id)
  unfolding require_run
  require_run-Quiet id = search (quiet_rules, require_lab-Quiet, require_storage-Quiet)

  pub require_approval-Quiet : (id : String) → Quiet (require_approval {D = D} id)
  unfolding require_approval
  require_approval-Quiet id =
      search (quiet_rules, require_lab-Quiet, require_storage-Quiet, require_run-Quiet)

  pub require_export-Quiet : (id : String) → Quiet (require_export {D = D} id)
  unfolding require_export
  require_export-Quiet id = search (
    quiet_rules, require_lab-Quiet, require_storage-Quiet, require_run-Quiet,
    require_approval-Quiet,
  )

  pub refuse_expired-Quiet : (now : ℕ) (row : ApprovalRow) → Quiet (refuse_expired {D = D} now row)
  unfolding refuse_expired
  refuse_expired-Quiet now row = search (
    quiet_rules, require_lab-Quiet, require_storage-Quiet, require_run-Quiet,
    require_approval-Quiet, require_export-Quiet,
  )

  pub ensure_approval_pending-Quiet :
      (now : ℕ) (row : ApprovalRow) → Quiet (ensure_approval_pending {D = D} now row)
  unfolding ensure_approval_pending
  ensure_approval_pending-Quiet now row = search (
    quiet_rules, require_lab-Quiet, require_storage-Quiet, require_run-Quiet,
    require_approval-Quiet, require_export-Quiet, refuse_expired-Quiet,
  )

  pub decide_lab-Quiet :
      (id : String) (decision : ApprovalState) → Quiet (decide_lab {D = D} id decision)
  unfolding decide_lab
  decide_lab-Quiet id decision = search (
    quiet_rules, require_lab-Quiet, require_storage-Quiet, require_run-Quiet,
    require_approval-Quiet, require_export-Quiet, refuse_expired-Quiet,
    ensure_approval_pending-Quiet,
  )

  pub decide_export-Quiet :
      (id : String) (decision : ApprovalState) (comment : Option String)
      → Quiet (decide_export {D = D} id decision comment)
  unfolding decide_export
  decide_export-Quiet id decision comment = search (
    quiet_rules, require_lab-Quiet, require_storage-Quiet, require_run-Quiet,
    require_approval-Quiet, require_export-Quiet, refuse_expired-Quiet,
    ensure_approval_pending-Quiet, decide_lab-Quiet,
  )

  pub decide_resource-Quiet :
      (row : ApprovalRow) (decision : ApprovalState) (comment : Option String)
      → Quiet (decide_resource {D = D} row decision comment)
  unfolding decide_resource
  decide_resource-Quiet row decision comment = search (
    quiet_rules, require_lab-Quiet, require_storage-Quiet, require_run-Quiet,
    require_approval-Quiet, require_export-Quiet, refuse_expired-Quiet,
    ensure_approval_pending-Quiet, decide_lab-Quiet, decide_export-Quiet,
  )

  pub apply_approval_decision-Quiet :
      (now : ℕ) (row : ApprovalRow) (decision : ApprovalState) (actor : String)
      (comment : Option String)
      → Quiet (apply_approval_decision {D = D} now row decision actor comment)
  unfolding apply_approval_decision
  apply_approval_decision-Quiet now row decision actor comment = search (
    quiet_rules, require_lab-Quiet, require_storage-Quiet, require_run-Quiet,
    require_approval-Quiet, require_export-Quiet, refuse_expired-Quiet,
    ensure_approval_pending-Quiet, decide_lab-Quiet, decide_export-Quiet, decide_resource-Quiet,
  )

  pub check_run-Quiet : (lab : LabRow) (run : Option String) → Quiet (check_run {D = D} lab run)
  unfolding check_run
  check_run-Quiet lab none = search (
    quiet_rules, require_lab-Quiet, require_storage-Quiet, require_run-Quiet,
    require_approval-Quiet, require_export-Quiet, refuse_expired-Quiet,
    ensure_approval_pending-Quiet, decide_lab-Quiet, decide_export-Quiet, decide_resource-Quiet,
    apply_approval_decision-Quiet,
  )
  check_run-Quiet lab (some id) = search (
    quiet_rules, require_lab-Quiet, require_storage-Quiet, require_run-Quiet,
    require_approval-Quiet, require_export-Quiet, refuse_expired-Quiet,
    ensure_approval_pending-Quiet, decide_lab-Quiet, decide_export-Quiet, decide_resource-Quiet,
    apply_approval_decision-Quiet,
  )

pub ruleset lookup_quiet = (
  quiet_rules, require_lab-Quiet, require_storage-Quiet, require_run-Quiet, require_approval-Quiet,
  require_export-Quiet, refuse_expired-Quiet, ensure_approval_pending-Quiet, decide_lab-Quiet,
  decide_export-Quiet, decide_resource-Quiet, apply_approval_decision-Quiet, check_run-Quiet,
)
