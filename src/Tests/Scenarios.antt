-- ===== src/Tests/Scenarios.antt =====
-- Runs of the whole control plane.
use labos.Prelude.{All, false}
use labos.Db.Rows.{empty_db}
use labos.Db.Session.{World}
use labos.Security.SecretBroker.{new_lease}
use labos.Workers.Reconciler.{
  is_overdue_lease, revoke_expired_secret_leases, is_overdue_run, timeout_overdue_runs, is_stale,
  expire_stale_approvals,
}
use labos.Core.Enums.{RunState}
use labos.Api.App.{requested_row}
use labos.Workers.Reconciler.Swept.{
  revoke_expired_secret_leases-All, timeout_overdue_runs-All, expire_stale_approvals-All,
}
use labos.Prelude.{◌≡◌, refl, err, some}
use labos.Api.Labs.{destroy_lab}
use labos.Api.App.{require_lab}
use labos.Db.Table.{find}
use labos.Core.Enums.{SchedulerAction}
use labos.Prelude.{ℕ, none, List, [], ◌∷◌}
use labos.Policy.Models.{RequesterType}
use labos.System.Requests.{Request, serve, handle}
use labos.System.Atomic.{handle-Atomic}
use labos.Workers.Scheduler.{SchedulerJobCreateRequest, next_job, pending_count, enqueue}
use labos.Workers.Scheduler.Quota.{enqueue-bounded}
use labos.Prelude.{◌≤◌, arith}
use labos.Workers.Scheduler.Queue.{IsNext, next_job-IsNext}
use labos.Db.Session.{not_found, ◌>>=◌, with_session}
use labos.System.Sound.{Sound}
use labos.System.Invariant.{serve-Sound}
use labos.System.Quiet.Answers.{HasIsoDates}
use labos.Prelude.{ap}
use labos.Tests.Fixtures.{strokes-tally, host, app, describe, fresh}

-- a lab of the riskiest profile is requested by an agent and approved, and exports a file
abbrev script : List (ℕ × Request)
script =
    (10, Request.creates_lab "red-zone" RequesterType.agent)
    ∷ (20, Request.approves "ii" "alice" none)
    ∷ (30, Request.creates_export "" "/lab/exports/report.txt" none RequesterType.human)
    ∷ []

abbrev lab_job : ℕ → SchedulerJobCreateRequest
lab_job time = record {
  action = SchedulerAction.create_lab;
  requester_id = "ci";
  profile_name = some "safe-dev";
  lab_id = none;
  command = none;
  scheduled_for = some time;
  max_attempts = 3;
}

-- two jobs, the later one due first
abbrev enqueued : List (ℕ × Request)
enqueued = (10, Request.enqueues_job (lab_job 45)) ∷ (20, Request.enqueues_job (lab_job 30)) ∷ []

serve-Sound_example : Sound (serve host app describe fresh script).committed
serve-Sound_example = serve-Sound host app describe tt script

-- the request for a lab that is not there
abbrev unknown_lab : Request
unknown_lab = Request.destroys_lab "nowhere"

unknown_lab_raises : (handle host app describe 40 unknown_lab fresh).0 ≡ err (not_found "lab")
unfolding handle ◌>>=◌ destroy_lab with_session require_lab find
unknown_lab_raises = refl

host_dates : HasIsoDates host
host_dates = record { fromisoformat-isoformat = λ t. ap some (strokes-tally t) }

handle-Atomic_example :
    (handle host app describe 40 unknown_lab fresh).1.committed ≡ fresh.committed
handle-Atomic_example =
    handle-Atomic host app describe 40 host_dates unknown_lab fresh (not_found "lab") refl
      unknown_lab_raises

next_job-IsNext_example :
    IsNext 50
      (serve host app describe fresh enqueued).committed.scheduler_jobs
      (next_job 50 (serve host app describe fresh enqueued).committed)
next_job-IsNext_example = next_job-IsNext 50 (serve host app describe fresh enqueued).committed

-- a view with one lease that has run out and one that has not
abbrev leased : World Unit
leased = record fresh {
  db = record empty_db {
    secret_leases = new_lease 0 0 "old" "lab" "TOKEN" ∷ new_lease 90 5 "new" "lab" "TOKEN" ∷ [];
  };
}

revoke_expired_secret_leases-All_example :
    All
      (λ r. is_overdue_lease 99 r ≡ false)
      (revoke_expired_secret_leases host 99 leased).1.db.secret_leases
revoke_expired_secret_leases-All_example = revoke_expired_secret_leases-All host 99 leased

enqueue-bounded_example :
    pending_count "ci" (enqueue host 7 1 (lab_job 50) fresh).1.db.scheduler_jobs ≤ 1
unfolding pending_count
enqueue-bounded_example = enqueue-bounded host 7 1 (lab_job 50) "ci" fresh (omega arith)

-- a view with a run and an approval whose time has run out
abbrev late_rows : World Unit
late_rows = record fresh {
  db = record empty_db {
    runs =
        record {
          id = "run";
          created_at = 1;
          lab_id = "lab";
          state = RunState.queued;
          command = "make";
          timeout_at = some 9;
          finished_at = none;
        }
        ∷ [];
    approvals = requested_row 1 "request" (some "lab") "lab" "lab" "create" "policy" "agent" ∷ [];
  };
}

timeout_overdue_runs-All_example :
    All (λ r. is_overdue_run 99 r ≡ false) (timeout_overdue_runs host 99 late_rows).1.db.runs
timeout_overdue_runs-All_example = timeout_overdue_runs-All host 99 late_rows

expire_stale_approvals-All_example :
    All
      (λ r. is_stale 99999999999999 r ≡ false)
      (expire_stale_approvals host 99999999999999 late_rows).1.db.approvals
expire_stale_approvals-All_example = expire_stale_approvals-All host 99999999999999 late_rows
