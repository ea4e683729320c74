-- ===== src/Workers/Scheduler.antt =====
-- labos/workers/scheduler.py: the queue of jobs, with the validation of
-- `SchedulerJobCreateRequest` (labos/core/models.py).
pub mod Queue
pub mod Quota
use Prim.Native.String.{compare}
use package.text.Mathlib.Text.{is_lt}
use labos.Prelude.{ℕ, ◌+◌, String, Bool, true, false, not, ◌&&◌, ◌||◌, Option, none, some, List}
use labos.Prelude.{Result, ok, err, and_then, reject_if, ltb, leb, is_none, ◌==◌, length, keep}
use labos.Prelude.{if◌then◌else◌, string_eq, nat_eq}
use labos.Core.Enums.{SchedulerAction, SchedulerJobState, job_eq}
use labos.Db.Rows.{Db, SchedulerJobRow, job_key}
use labos.Db.Table.{order_by, first}
use labos.Db.Changes.{add_job, save_job}
use labos.Db.Platform.{Platform}
use labos.Db.Session.{nested, ApiError, fault, Exec, pure, raise, gets, modify, new_id, ◌>>=◌, ◌>>◌}

pub record SchedulerJobCreateRequest : Type 0 where
  pub action : SchedulerAction
  pub requester_id : String
  pub profile_name : Option String
  pub lab_id : Option String
  pub command : Option String
  pub scheduled_for : Option ℕ
  pub max_attempts : ℕ

abbrev validate_action_payload : SchedulerAction → SchedulerJobCreateRequest → Result String Unit
validate_action_payload SchedulerAction.create_lab r =
    and_then (reject_if (is_none r.profile_name) "profile_name is required for create_lab jobs")
      λ _.
        reject_if (not (is_none r.lab_id) || not (is_none r.command))
          "create_lab jobs do not accept lab_id or command"
validate_action_payload SchedulerAction.start_run r =
    and_then (reject_if (is_none r.lab_id) "lab_id is required for start_run jobs") λ _.
      and_then (reject_if (is_none r.command) "command is required for start_run jobs")
        λ _. reject_if (not (is_none r.profile_name)) "start_run jobs do not accept profile_name"

-- the field bounds, then the model validator
unfoldable pub validate_job : SchedulerJobCreateRequest → Result String Unit
validate_job r = and_then (reject_if (r.requester_id == "") "requester_id") λ _.
    and_then (reject_if (ltb r.max_attempts 1 || ltb 10 r.max_attempts) "max_attempts")
      λ _. validate_action_payload r.action r

-- `state.in_([QUEUED, DISPATCHED])`
abbrev pub is_pending : SchedulerJobState → Bool
is_pending SchedulerJobState.queued = true
is_pending SchedulerJobState.dispatched = true
is_pending _ = false

abbrev pub pending_of : String → SchedulerJobRow → Bool
pending_of requester_id row = row.requester_id == requester_id && is_pending row.state

unfoldable pub pending_count : String → List SchedulerJobRow → ℕ
pending_count requester_id rows = length (keep (pending_of requester_id) rows)

abbrev or_now : Option ℕ → ℕ → ℕ
or_now none now = now
or_now (some t) now = t

abbrev pub new_job : ℕ → String → SchedulerJobCreateRequest → SchedulerJobRow
new_job now id r = record {
  id = id;
  created_at = now;
  action = r.action;
  state = SchedulerJobState.queued;
  requester_id = r.requester_id;
  profile_name = r.profile_name;
  lab_id = r.lab_id;
  command = r.command;
  scheduled_for = or_now r.scheduled_for now;
  attempt_count = 0;
  max_attempts = r.max_attempts;
  last_error = none;
  result_resource_type = none;
  result_resource_id = none;
  dispatched_at = none;
  completed_at = none;
}

abbrev pub SchedulerQuotaExceededError : Type 0
SchedulerQuotaExceededError = Unit

module _ (os : Platform) (now : ℕ) where
  unfoldable pub add_enqueued :
      SchedulerJobCreateRequest
      → Bool
      → Exec os.Disk (Result SchedulerQuotaExceededError SchedulerJobRow)
  add_enqueued request true = pure (err tt)
  add_enqueued request false = do
    id ← new_id os
    modify (add_job (new_job now id request))
    pure (ok (new_job now id request))

  unfoldable pub enqueue :
      ℕ
      → SchedulerJobCreateRequest
      → Exec os.Disk (Result SchedulerQuotaExceededError SchedulerJobRow)
  enqueue max_pending request = do
    full ← gets (λ d. leb max_pending (pending_count request.requester_id d.scheduler_jobs))
    add_enqueued request full

-- `order_by(scheduled_for, created_at, id)`
abbrev pub job_before : SchedulerJobRow → SchedulerJobRow → Bool
job_before a b =
    ltb a.scheduled_for b.scheduled_for
    || a.scheduled_for == b.scheduled_for
      && (ltb a.created_at b.created_at
          || a.created_at == b.created_at && is_lt (compare a.id b.id))

unfoldable pub list_jobs : Db → List SchedulerJobRow
list_jobs d = order_by job_before d.scheduler_jobs

abbrev pub is_queued : SchedulerJobState → Bool
is_queued SchedulerJobState.queued = true
is_queued _ = false

abbrev pub is_due : ℕ → SchedulerJobRow → Bool
is_due now row = is_queued row.state && leb row.scheduled_for now

-- the query of `run_next`
unfoldable pub next_job : ℕ → Db → Option SchedulerJobRow
next_job now d = first (order_by job_before (keep (is_due now) d.scheduler_jobs))

abbrev pub dispatched_job : ℕ → SchedulerJobRow → SchedulerJobRow
dispatched_job now job = record job {
  state = SchedulerJobState.dispatched;
  attempt_count = job.attempt_count + 1;
  dispatched_at = some now;
  last_error = none;
}

abbrev pub failed_job : ℕ → String → SchedulerJobRow → SchedulerJobRow
failed_job now error job =
    if leb job.max_attempts job.attempt_count
    then record job {
      last_error = some error;
      state = SchedulerJobState.failed;
      completed_at = some now;
    }
    else record job { last_error = some error; state = SchedulerJobState.queued }

abbrev pub succeeded_job : ℕ → String → String → SchedulerJobRow → SchedulerJobRow
succeeded_job now resource_type resource_id job = record job {
  state = SchedulerJobState.succeeded;
  completed_at = some now;
  result_resource_type = some resource_type;
  result_resource_id = some resource_id;
  last_error = none;
}

-- the job after its attempt
abbrev pub settle :
    (ApiError → String) → ℕ → SchedulerJobRow → Result ApiError (String × String) → SchedulerJobRow
settle describe now job (ok (resource_type, resource_id)) =
    succeeded_job now resource_type resource_id job
settle describe now job (err e) = failed_job now (describe e) job

unfoldable pub or_assert :
    {D A : Type 0} → Option A → (A → Exec D (String × String)) → Exec D (String × String)
or_assert none k = raise (fault "")
or_assert (some a) k = k a

module _ {D : Type 0} (describe : ApiError → String) (create_lab : String → Exec D String)
    (create_run : String → String → Exec D String) (now : ℕ) where
  -- the body of the nested transaction: the type and identifier of what was created
  unfoldable pub perform : SchedulerAction → SchedulerJobRow → Exec D (String × String)
  perform SchedulerAction.create_lab job =
      or_assert job.profile_name λ profile_name. do id ← create_lab profile_name; pure ("lab", id)
  perform SchedulerAction.start_run job =
      or_assert job.lab_id λ lab_id.
        or_assert job.command λ command. do id ← create_run lab_id command; pure ("run", id)

  unfoldable pub run_job : SchedulerJobRow → Exec D (Option SchedulerJobRow)
  run_job job = do
    let job' = dispatched_job now job
    modify (save_job job')
    outcome ← nested (perform job'.action job')
    modify (save_job (settle describe now job' outcome))
    pure (some (settle describe now job' outcome))

  unfoldable pub run_found : Option SchedulerJobRow → Exec D (Option SchedulerJobRow)
  run_found none = pure none
  run_found (some job) = run_job job

  unfoldable pub run_next : Exec D (Option SchedulerJobRow)
  run_next = do found ← gets (next_job now); run_found found
