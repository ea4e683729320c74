-- ===== src/Workers/Scheduler/Queue.antt =====
-- Which job the scheduler takes next (`run_next` of labos/workers/scheduler.py).
use mathlib.Core.List.{Memᴰ}
use labos.Prelude.{
  ℕ, ◌≤◌, ◌≡◌, refl, true, false, Option, none, some, List, [], ◌∷◌, All, keep, arith,
}
use labos.Db.Rows.{Db, SchedulerJobRow}
use labos.Db.Table.{order_by, first, All-keep_test, All-order_by}
use labos.Db.Order.{Least, order_by-All, order_by-Least}
use labos.Workers.Scheduler.{job_before, is_due, next_job}

job_before-le : (a b : SchedulerJobRow) → job_before a b ≡ true → a.scheduled_for ≤ b.scheduled_for
job_before-le a b h = ground arith

job_before-ge : (a b : SchedulerJobRow) → job_before a b ≡ false → b.scheduled_for ≤ a.scheduled_for
job_before-ge a b h = ground arith

listed :
    (P : SchedulerJobRow → Type 0) (rows : List SchedulerJobRow)
    → ((r : SchedulerJobRow) → Memᴰ r rows → P r)
    → All P rows
listed P [] h = tt
listed P (r ∷ rows) h = (h r (Memᴰ.head refl), listed P rows λ s m. h s (Memᴰ.tail m))

-- The choice among some jobs: there are none that are due, or the chosen one is due, is one of
-- them, and none that is due was scheduled for an earlier time.
abbrev pub IsNext : ℕ → List SchedulerJobRow → Option SchedulerJobRow → Type 0
IsNext now jobs none = keep (is_due now) jobs ≡ []
IsNext now jobs (some job) =
    Memᴰ job jobs
    × (is_due now job ≡ true)
    × All (λ other. job.scheduled_for ≤ other.scheduled_for) (keep (is_due now) jobs)

none_due : (rows : List SchedulerJobRow) → All (λ r. ⊥) rows → rows ≡ []
none_due [] h = refl
none_due (r ∷ rows) h = absurd (h.0)

first-IsNext :
    (now : ℕ) (jobs sorted : List SchedulerJobRow)
    → order_by job_before (keep (is_due now) jobs) ≡ sorted
    → Least job_before (λ r. r.scheduled_for) job_before-le job_before-ge sorted
    → All (λ r. Memᴰ r jobs × (is_due now r ≡ true)) sorted
    → IsNext now jobs (first sorted)
unfolding first
first-IsNext now jobs [] e least h = none_due _ (order_by-All job_before (λ r. ⊥) _ (rw e tt))
first-IsNext now jobs (job ∷ rest) e least h = (
  h.0.0,
  h.0.1,
  order_by-All job_before (λ r. job.scheduled_for ≤ r.scheduled_for) _ (rw e (omega arith, least)),
)

-- The job that the scheduler takes at a time is one of the jobs in the table, is due, and no job
-- that is due was scheduled for an earlier time; it takes none exactly if none is due.
pub next_job-IsNext : (now : ℕ) (d : Db) → IsNext now d.scheduler_jobs (next_job now d)
unfolding next_job
next_job-IsNext now d =
    first-IsNext now d.scheduler_jobs _ refl
      (order_by-Least job_before (λ r. r.scheduled_for) job_before-le job_before-ge _)
      (All-order_by _ job_before _ (
        All-keep_test (λ r. Memᴰ r d.scheduler_jobs) (is_due now) d.scheduler_jobs
          (listed _ d.scheduler_jobs λ r m. m)))
