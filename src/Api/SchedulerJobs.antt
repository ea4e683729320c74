-- ===== src/Api/SchedulerJobs.antt =====
-- The scheduler endpoints of labos/api/app.py.
use labos.Prelude.{ℕ, String, Option, none, some, List, [], ◌∷◌, Result, ok, err}
use labos.Core.Enums.{SchedulerJobState, scheduler_action_value, job_state_value}
use labos.Core.Events.{EventRecord, system_event, write}
use labos.Db.Rows.{SchedulerJobRow, Field, text, number, instant, null}
use labos.Db.Platform.{Platform}
use labos.Db.Session.{ApiError, Exec, pure, gets, lift, commit, with_session, not_found, conflict}
use labos.Db.Session.{unprocessable, or_raise, ◌>>=◌, ◌>>◌}
use labos.Policy.Models.{RequesterType}
use labos.Workers.Scheduler.{SchedulerJobCreateRequest, SchedulerQuotaExceededError, validate_job}
use labos.Workers.Scheduler.{enqueue, list_jobs, run_next}
use labos.Prelude.{map}
use labos.Api.Responses.{SchedulerJobResponse, scheduler_job_response}
use labos.Api.App.{App}
use labos.Api.Labs.{create_lab_record}
use labos.Api.Runs.{create_run_record}

abbrev pub validated : Result String Unit → Result ApiError Unit
validated (ok u) = ok u
validated (err m) = err (unprocessable m)

abbrev pub quota_failure :
    Result SchedulerQuotaExceededError SchedulerJobRow → Result ApiError SchedulerJobRow
quota_failure (ok row) = ok row
quota_failure (err e) = err (conflict "scheduler_pending_job_quota_exceeded" "scheduler_job")

abbrev job_event :
    String → String → Option String → SchedulerJobRow → List (String × Field) → EventRecord
job_event event_type actor_type actor_id row payload = record (system_event event_type payload) {
  actor_type = actor_type;
  actor_id = actor_id;
  resource_type = some "scheduler_job";
  resource_id = some row.id;
}

abbrev job_enqueued : SchedulerJobRow → EventRecord
job_enqueued row = job_event "scheduler_job.enqueued" "scheduler" (some row.requester_id) row (
    ("action", text (scheduler_action_value row.action))
    ∷ ("scheduled_for", instant row.scheduled_for)
    ∷ ("max_attempts", number row.max_attempts)
    ∷ [])

abbrev job_dispatched : SchedulerJobRow → EventRecord
job_dispatched row = job_event "scheduler_job.dispatched" "system" (some "scheduler-worker") row (
    ("action", text (scheduler_action_value row.action))
    ∷ ("attempt_count", number row.attempt_count)
    ∷ [])

abbrev pub terminal_state_event : SchedulerJobState → String
terminal_state_event SchedulerJobState.succeeded = "scheduler_job.succeeded"
terminal_state_event SchedulerJobState.failed = "scheduler_job.failed"
terminal_state_event _ = "scheduler_job.requeued"

abbrev optional_text : Option String → Field
optional_text none = null
optional_text (some s) = text s

abbrev job_settled : SchedulerJobRow → EventRecord
job_settled row =
    job_event (terminal_state_event row.state) "system" (some "scheduler-worker") row (
      ("state", text (job_state_value row.state))
      ∷ ("attempt_count", number row.attempt_count)
      ∷ ("last_error", optional_text row.last_error)
      ∷ ("result_resource_type", optional_text row.result_resource_type)
      ∷ ("result_resource_id", optional_text row.result_resource_id)
      ∷ [])

module _ (os : Platform) (app : App) (describe : ApiError → String) (now : ℕ) where
  unfoldable pub enqueue_scheduler_job : SchedulerJobCreateRequest → Exec os.Disk SchedulerJobRow
  enqueue_scheduler_job request = with_session (do
    lift (validated (validate_job request))
    enqueued ← enqueue os now app.max_pending_jobs_per_requester request
    row ← lift (quota_failure enqueued)
    write os now (job_enqueued row)
    commit
    pure row)

  unfoldable pub list_scheduler_jobs : Exec os.Disk (List SchedulerJobResponse)
  list_scheduler_jobs =
      with_session (do rows ← gets list_jobs; pure (map scheduler_job_response rows))

  -- the callbacks that `dispatch_next_scheduler_job` hands to `run_next`
  unfoldable pub create_lab_callback : String → Exec os.Disk String
  create_lab_callback profile_name = do
    response ← create_lab_record os app now profile_name RequesterType.scheduler
    pure response.0.id

  unfoldable pub create_run_callback : String → String → Exec os.Disk String
  create_run_callback lab_id command = do
    response ← create_run_record os app now lab_id command RequesterType.scheduler
    pure response.id

  unfoldable pub dispatch_next_scheduler_job : Exec os.Disk SchedulerJobRow
  dispatch_next_scheduler_job = with_session (do
    found ← run_next describe create_lab_callback create_run_callback now
    row ← or_raise found (not_found "scheduler_job")
    write os now (job_dispatched row)
    write os now (job_settled row)
    commit
    pure row)
