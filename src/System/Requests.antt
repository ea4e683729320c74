-- ===== src/System/Requests.antt =====
-- The requests that change state, in any order, each at its own time: the endpoints of
-- labos/api/app.py, and a reconciler pass (labos/workers/reconciler.py) whose caller commits it.
use labos.Prelude.{Result, ℕ, String, Option, List, [], ◌∷◌, some}
use labos.Db.Rows.{empty_db}
use labos.Db.Platform.{Platform}
use labos.Db.Session.{ApiError, World, Exec, pure, commit, with_session, ◌>>=◌}
use labos.Policy.Models.{RequesterType}
use labos.Storage.Allocator.{destroy}
use labos.Workers.Scheduler.{SchedulerJobCreateRequest}
use labos.Workers.Reconciler.Labs.{ReconciliationService, reconcile}
use labos.Runtimes.Base.{LabInspection}
use labos.Api.App.{App}
use labos.Api.Labs.{create_lab, destroy_lab}
use labos.Api.Runs.{create_run}
use labos.Api.Leases.{create_secret_lease, revoke_secret_lease}
use labos.Api.Approvals.{approve_request, deny_request}
use labos.Api.Exports.{create_export, release_export_endpoint, deny_export_endpoint}
use labos.Api.Snapshots.{create_snapshot_endpoint, restore_snapshot_endpoint}
use labos.Api.SchedulerJobs.{enqueue_scheduler_job, dispatch_next_scheduler_job}

pub data Request : Type 0 where
  creates_lab : String → RequesterType → Request
  destroys_lab : String → Request
  creates_lease : String → String → RequesterType → ℕ → Request
  revokes_lease : String → String → Option String → Request
  creates_run : String → String → RequesterType → Request
  enqueues_job : SchedulerJobCreateRequest → Request
  dispatches_next : Request
  approves : String → String → Option String → Request
  denies : String → String → Option String → Request
  creates_export : String → String → Option String → RequesterType → Request
  releases_export : String → Request
  denies_export : String → String → Request
  takes_snapshot : String → Option String → RequesterType → Request
  restores_snapshot : String → String → RequesterType → Request
  reconciles : Option (Result String (List LabInspection)) → Request

module _ (os : Platform) (app : App) (describe : ApiError → String) where
  -- the reconciler with the control plane's own allocator, and the default number of attempts
  abbrev pub service : Option (Result String (List LabInspection)) → ReconciliationService os
  service inventory = record {
    runtime_inventory = inventory;
    storage_destroyer = some (destroy os app.managed_storage_root);
    max_destroy_attempts = 3;
  }

  unfoldable pub reconcile_pass :
      ℕ → Option (Result String (List LabInspection)) → Exec os.Disk Unit
  reconcile_pass now inventory =
      with_session (do report ← reconcile os describe (service inventory) now; commit)

  -- an endpoint whose response is dropped
  abbrev discard : {A : Type 0} → Exec os.Disk A → Exec os.Disk Unit
  discard m = m >>= λ _. pure tt

  unfoldable pub handle : ℕ → Request → Exec os.Disk Unit
  handle now (creates_lab name requester) = discard (create_lab os app now name requester)
  handle now (destroys_lab id) = discard (destroy_lab os app now id)
  handle now (creates_lease id name requester ttl) =
      discard (create_secret_lease os app now id name requester ttl)
  handle now (revokes_lease id actor reason) =
      discard (revoke_secret_lease os app now id actor reason)
  handle now (creates_run id command requester) =
      discard (create_run os app now id command requester)
  handle now (enqueues_job request) = discard (enqueue_scheduler_job os app describe now request)
  handle now dispatches_next = discard (dispatch_next_scheduler_job os app describe now)
  handle now (approves id actor comment) = discard (approve_request os now id actor comment)
  handle now (denies id actor comment) = discard (deny_request os now id actor comment)
  handle now (creates_export id path run requester) =
      discard (create_export os app now id path run requester)
  handle now (releases_export id) = discard (release_export_endpoint os app now id)
  handle now (denies_export id reason) = discard (deny_export_endpoint os app now id reason)
  handle now (takes_snapshot id run requester) =
      discard (create_snapshot_endpoint os app now id run requester)
  handle now (restores_snapshot id lab requester) =
      discard (restore_snapshot_endpoint os app now id lab requester)
  handle now (reconciles inventory) = reconcile_pass now inventory

  -- What a request raises goes to its client; the next one starts from what is left.
  unfoldable pub serve : World os.Disk → List (ℕ × Request) → World os.Disk
  serve w [] = w
  serve w ((now, request) ∷ rest) = serve (handle now request w).1 rest

-- a fresh database on a given disk
abbrev pub start : {D : Type 0} → D → World D
start disk = record { db = empty_db; committed = empty_db; disk = disk; drawn = 0 }
