-- ===== src/System/Invariant.antt =====
-- `Sound` holds after any requests.
use labos.Prelude.{Result, ℕ, refl, String, Option, List, [], ◌∷◌, inl, inr}
use labos.Core.Enums.{ApprovalState}
use labos.Db.Rows.{empty_db}
use labos.Db.Platform.{Platform}
use labos.Db.Session.{ApiError, World}
use labos.Db.Keeps.{Keeps, Holds, keeps_rules, Keeps-bind, Keeps-with_session}
use labos.Runtimes.Base.{LabInspection}
use labos.Api.App.{App}
use labos.Api.Approvals.{approve_request, deny_request}
use labos.System.Sound.{Sound}
use labos.System.Handlers.{create_lab-Sound, destroy_lab-Sound, create_run-Sound, destroy-Sound}
use labos.System.Handlers.Approvals.{decide_request-Sound}
use labos.System.Handlers.Exports.{
  create_export-Sound, release_export_endpoint-Sound, deny_export_endpoint-Sound,
}
use labos.System.Handlers.Leases.{create_secret_lease-Sound, revoke_secret_lease-Sound}
use labos.System.Handlers.Snapshots.{
  create_snapshot_endpoint-Sound, restore_snapshot_endpoint-Sound,
}
use labos.System.Handlers.Jobs.{enqueue_scheduler_job-Sound, dispatch_next_scheduler_job-Sound}
use labos.System.Handlers.Reconciliation.{reconcile-Sound}
use labos.System.Requests.{Request, service, reconcile_pass, handle, serve, start}
use labos.System.Requests.{approves, denies, reconciles}

ruleset endpoint_rules = (
  keeps_rules, create_lab-Sound, destroy_lab-Sound, create_run-Sound, create_export-Sound,
  release_export_endpoint-Sound, deny_export_endpoint-Sound, create_secret_lease-Sound,
  revoke_secret_lease-Sound, create_snapshot_endpoint-Sound, restore_snapshot_endpoint-Sound,
  enqueue_scheduler_job-Sound, dispatch_next_scheduler_job-Sound,
)

module _ (os : Platform) (app : App) (describe : ApiError → String) where
  approve_request-Sound :
      (now : ℕ) (id actor : String) (comment : Option String)
      → Keeps Sound (approve_request os now id actor comment)
  unfolding approve_request
  approve_request-Sound now id actor comment =
      decide_request-Sound os now "approval.approved" ApprovalState.approved id actor comment
        (inl refl)

  deny_request-Sound :
      (now : ℕ) (id actor : String) (comment : Option String)
      → Keeps Sound (deny_request os now id actor comment)
  unfolding deny_request
  deny_request-Sound now id actor comment =
      decide_request-Sound os now "approval.denied" ApprovalState.rejected id actor comment
        (inr refl)

  reconcile_pass-Sound :
      (now : ℕ) (inventory : Option (Result String (List LabInspection)))
      → Keeps Sound (reconcile_pass os app describe now inventory)
  unfolding reconcile_pass
  reconcile_pass-Sound now inventory = Keeps-with_session _ (
      Keeps-bind _ _
        (reconcile-Sound os describe (service os app describe inventory) now
          (destroy-Sound os app.managed_storage_root))
        λ _. search keeps_rules)

  pub handle-Sound : (now : ℕ) (r : Request) → Keeps Sound (handle os app describe now r)
  unfolding handle
  handle-Sound now (approves id actor comment) =
      Keeps-bind _ _ (approve_request-Sound now id actor comment) λ _. search keeps_rules
  handle-Sound now (denies id actor comment) =
      Keeps-bind _ _ (deny_request-Sound now id actor comment) λ _. search keeps_rules
  handle-Sound now (reconciles inventory) = reconcile_pass-Sound now inventory
  handle-Sound now _ = search endpoint_rules

  serve-Holds :
      (w : World os.Disk) (requests : List (ℕ × Request))
      → Holds Sound w
      → Holds Sound (serve os app describe w requests)
  unfolding serve
  serve-Holds w [] h = h
  serve-Holds w ((now, r) ∷ rest) h =
      serve-Holds (handle os app describe now r w).1 rest ((handle-Sound now r).at w h)

  start-Holds : (disk : os.Disk) → Holds Sound (start disk)
  start-Holds disk = record { view = empty_sound; stored = empty_sound }
    where
      empty_sound : Sound empty_db
      empty_sound = record {
        labs = tt;
        runs = tt;
        approvals = tt;
        exports = tt;
        leases = tt;
        jobs = tt;
      }

  -- From an empty database, after any sequence of requests that change state and of committed
  -- reconciler passes, each at any time, returning or raising, every row that the database holds
  -- is sound: a lab is pending approval, approved, failed or destroyed and never provisioned; a run
  -- is queued or timed out, and has an end unless it is queued; an approval's flag says that its
  -- state is approved, it is undated exactly while it is requested, and a rejected one has a
  -- comment that is not blank; an export was staged, needs no approval once it is approved or
  -- released, has a path once released, and has a denial reason that is not blank exactly when it
  -- is rejected; a lease is approved and ends after it began; a scheduler job has made at most its
  -- maximal number of attempts, fewer while it is queued and all of them when it has failed, has a
  -- result when it has succeeded, and has the arguments that its action needs.
  pub serve-Sound :
      (disk : os.Disk) (requests : List (ℕ × Request))
      → Sound (serve os app describe (start disk) requests).committed
  serve-Sound disk requests = (serve-Holds (start disk) requests (start-Holds disk)).stored
