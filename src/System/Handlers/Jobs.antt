-- ===== src/System/Handlers/Jobs.antt =====
-- The scheduler endpoints keep `Sound`.
use labos.Prelude.{
  ℕ, ◌≡◌, refl, String, Bool, true, false, Option, none, some, arith, Result, ok, err,
}
use labos.Core.Enums.{SchedulerAction}
use labos.Db.Rows.{Db, SchedulerJobRow, job_key}
use labos.Db.Table.{All-order_by, All-keep_test, All-first}
use labos.Db.Platform.{Platform}
use labos.Db.Session.{ApiError, Exec}
use labos.Db.Keeps.{Keeps, Keeps-bind, Keeps-bind-gets, Keeps-bind-lift, Keeps-with_session}
use labos.Db.Keeps.{keeps_rules, Keeps-nested}
use labos.Workers.Scheduler.{
  SchedulerJobCreateRequest, validate_job, new_job, add_enqueued, enqueue, is_due, job_before,
  next_job, dispatched_job, or_assert, perform, settle, run_job, run_found, run_next,
}
use labos.Api.App.{App}
use labos.Api.SchedulerJobs.{
  validated, enqueue_scheduler_job, create_lab_callback, create_run_callback,
  dispatch_next_scheduler_job,
}
use labos.System.Sound.{Sound, JobSound}
use labos.System.Rules.{sound_rules, save_job-Sound}
use labos.System.Handlers.{write-Sound, create_lab_record-Sound, create_run_record-Sound}

new_job-Sound :
    (now : ℕ) (id : String) (r : SchedulerJobCreateRequest)
    → validate_job r ≡ ok tt
    → JobSound (new_job now id r)
unfolding validate_job
new_job-Sound now id r h = ground arith

-- a due job that is sound
abbrev IsReady : ℕ → SchedulerJobRow → Type 0
IsReady now job = JobSound job × (is_due now job ≡ true)

abbrev IsReadyOption : ℕ → Option SchedulerJobRow → Type 0
IsReadyOption now found = (job : SchedulerJobRow) → found ≡ some job → IsReady now job

next_job-IsReady : (now : ℕ) (d : Db) → Sound d → IsReadyOption now (next_job now d)
unfolding next_job
next_job-IsReady now d h job e =
    All-first (IsReady now) _
      (All-order_by (IsReady now) job_before _
        (All-keep_test JobSound (is_due now) d.scheduler_jobs h.jobs))
      e

dispatched_job-Sound :
    (now : ℕ) (job : SchedulerJobRow) → IsReady now job → JobSound (dispatched_job now job)
dispatched_job-Sound now job h = ground arith

settle-Sound :
    (describe : ApiError → String) (now : ℕ) (job : SchedulerJobRow)
    (r : Result ApiError (String × String))
    → IsReady now job
    → JobSound (settle describe now (dispatched_job now job) r)
settle-Sound describe now job (ok (kind, id)) h = ground arith
settle-Sound describe now job (err e) h = ground arith

or_assert-Sound :
    {D A : Type 0} (o : Option A) (k : A → Exec D (String × String))
    → ((a : A) → Keeps Sound (k a))
    → Keeps Sound (or_assert o k)
unfolding or_assert
or_assert-Sound none k h = search keeps_rules
or_assert-Sound (some a) k h = h a

module _ {D : Type 0} (describe : ApiError → String) (create_lab : String → Exec D String)
    (create_run : String → String → Exec D String) (now : ℕ)
    (lab_keeps : (name : String) → Keeps Sound (create_lab name))
    (run_keeps : (lab_id command : String) → Keeps Sound (create_run lab_id command)) where
  perform-Sound :
      (action : SchedulerAction) (job : SchedulerJobRow)
      → Keeps Sound (perform describe create_lab create_run now action job)
  unfolding perform
  perform-Sound SchedulerAction.create_lab job =
      or_assert-Sound job.profile_name _
        λ name. Keeps-bind _ _ (lab_keeps name) λ id. search keeps_rules
  perform-Sound SchedulerAction.start_run job = or_assert-Sound job.lab_id _ λ lab_id.
      or_assert-Sound job.command _
        λ command. Keeps-bind _ _ (run_keeps lab_id command) λ id. search keeps_rules

  run_job-Sound :
      (job : SchedulerJobRow)
      → IsReady now job
      → Keeps Sound (run_job describe create_lab create_run now job)
  unfolding run_job
  run_job-Sound job h =
      let job' = dispatched_job now job in
      Keeps-bind _ _ (save_job-Sound job' (dispatched_job-Sound now job h)) λ _.
        Keeps-bind _ _ (Keeps-nested _ (perform-Sound job'.action job')) λ outcome.
          Keeps-bind _ _
            (save_job-Sound (settle describe now job' outcome)
              (settle-Sound describe now job outcome h))
            λ _. search keeps_rules

  run_found-Sound :
      (found : Option SchedulerJobRow)
      → IsReadyOption now found
      → Keeps Sound (run_found describe create_lab create_run now found)
  unfolding run_found
  run_found-Sound none h = search keeps_rules
  run_found-Sound (some job) h = run_job-Sound job (h job refl)

  pub run_next-Sound : Keeps Sound (run_next describe create_lab create_run now)
  unfolding run_next
  run_next-Sound = Keeps-bind-gets (IsReadyOption now) _ _ (next_job-IsReady now) run_found-Sound

module _ (os : Platform) (app : App) (describe : ApiError → String) (now : ℕ) where
  add_enqueued-Sound :
      (request : SchedulerJobCreateRequest) (full : Bool)
      → validate_job request ≡ ok tt
      → Keeps Sound (add_enqueued os now request full)
  unfolding add_enqueued
  add_enqueued-Sound request true h = search sound_rules
  add_enqueued-Sound request false h = search (sound_rules, new_job-Sound) depth 10

  enqueue-Sound :
      (max_pending : ℕ) (request : SchedulerJobCreateRequest)
      → validate_job request ≡ ok tt
      → Keeps Sound (enqueue os now max_pending request)
  unfolding enqueue
  enqueue-Sound max_pending request h = search (sound_rules, add_enqueued-Sound)

  validated-ok : (r : Result String Unit) (u : Unit) → validated r ≡ ok u → r ≡ ok tt
  validated-ok (ok tt) u h = refl
  validated-ok (err e) u h = absurd (cc)

  pub enqueue_scheduler_job-Sound :
      (request : SchedulerJobCreateRequest)
      → Keeps Sound (enqueue_scheduler_job os app describe now request)
  unfolding enqueue_scheduler_job
  enqueue_scheduler_job-Sound request = Keeps-with_session _ (
      Keeps-bind-lift (validated (validate_job request)) _ λ u e.
        let h = validated-ok (validate_job request) u e in
        search (sound_rules, enqueue-Sound, write-Sound) depth 15)

  create_lab_callback-Sound :
      (name : String) → Keeps Sound (create_lab_callback os app describe now name)
  unfolding create_lab_callback
  create_lab_callback-Sound name = search (keeps_rules, create_lab_record-Sound)

  create_run_callback-Sound :
      (lab_id command : String)
      → Keeps Sound (create_run_callback os app describe now lab_id command)
  unfolding create_run_callback
  create_run_callback-Sound lab_id command = search (keeps_rules, create_run_record-Sound)

  pub dispatch_next_scheduler_job-Sound :
      Keeps Sound (dispatch_next_scheduler_job os app describe now)
  unfolding dispatch_next_scheduler_job
  dispatch_next_scheduler_job-Sound = Keeps-with_session _ (
      Keeps-bind _ _
        (run_next-Sound describe _ _ now create_lab_callback-Sound create_run_callback-Sound)
        λ found. search (sound_rules, write-Sound) depth 10)
