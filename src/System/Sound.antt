-- ===== src/System/Sound.antt =====
-- What holds of every row between two requests, and that each kind of change keeps it.
use labos.Prelude.{◌≤◌, ◌<◌, ◌≡◌, ◌⊎◌, Bool, true, false, not, ◌||◌, ◌&&◌}
use labos.Prelude.{All, is_none, ◌==◌}
use labos.Core.Enums.{LabState, RunState, ApprovalState, ExportState, SchedulerAction}
use labos.Core.Enums.{SchedulerJobState, lab_eq, run_eq, approval_eq, export_eq, job_eq}
use labos.Db.Rows.{Db, LabRow, RunRow, ApprovalRow, ExportRow, SecretLeaseRow, SchedulerJobRow}
use labos.Api.Approvals.{lacks_comment}

-- The lab states that the control plane writes. None of them says that a runtime was provisioned.
pub record LabSound (r : LabRow) : Type 0 where
  pub unprovisioned :
      (r.state ≡ LabState.pending_approval)
      ⊎ (r.state ≡ LabState.approved)
      ⊎ (r.state ≡ LabState.failed)
      ⊎ (r.state ≡ LabState.destroyed)

-- A run is queued or timed out, and has an end exactly when it is not queued.
pub record RunSound (r : RunRow) : Type 0 where
  pub never_started : (r.state ≡ RunState.queued) ⊎ (r.state ≡ RunState.timed_out)
  pub finished : is_none r.finished_at ≡ (r.state == RunState.queued)

pub record ApprovalSound (r : ApprovalRow) : Type 0 where
  pub approved_flag : r.approved ≡ (r.state == ApprovalState.approved)
  pub undecided : is_none r.decided_at ≡ (r.state == ApprovalState.requested)
  pub denied_comment : r.state ≡ ApprovalState.rejected → lacks_comment r.decision_comment ≡ false

pub record ExportSound (r : ExportRow) : Type 0 where
  pub staged : (r.state == ExportState.requested) ≡ false
  pub cleared :
      (r.state == ExportState.approved || r.state == ExportState.released) ≡ true
      → r.approval_required ≡ false
  pub released_path : r.state ≡ ExportState.released → is_none r.released_path ≡ false
  pub reason : lacks_comment r.denial_reason ≡ not (r.state == ExportState.rejected)

pub record LeaseSound (r : SecretLeaseRow) : Type 0 where
  pub approved : r.approved ≡ true
  pub lasts : r.created_at < r.expires_at

-- the arguments that a job's action needs
abbrev pub has_payload : SchedulerAction → SchedulerJobRow → Bool
has_payload SchedulerAction.create_lab r = not (is_none r.profile_name)
has_payload SchedulerAction.start_run r = not (is_none r.lab_id) && not (is_none r.command)

pub record JobSound (r : SchedulerJobRow) : Type 0 where
  pub attempts : r.attempt_count ≤ r.max_attempts
  pub retryable : r.state ≡ SchedulerJobState.queued → r.attempt_count < r.max_attempts
  pub exhausted : r.state ≡ SchedulerJobState.failed → r.attempt_count ≡ r.max_attempts
  pub result : r.state ≡ SchedulerJobState.succeeded → is_none r.result_resource_id ≡ false
  pub payload : has_payload r.action r ≡ true

pub record Sound (d : Db) : Type 0 where
  pub labs : All LabSound d.labs
  pub runs : All RunSound d.runs
  pub approvals : All ApprovalSound d.approvals
  pub exports : All ExportSound d.exports
  pub leases : All LeaseSound d.secret_leases
  pub jobs : All JobSound d.scheduler_jobs
