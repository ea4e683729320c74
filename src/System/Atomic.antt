-- ===== src/System/Atomic.antt =====
-- A request that raises changes nothing that is stored.
use labos.Prelude.{Result, ℕ, String, ◌≡◌, Bool, true, false, Option, none, some, List, err}
use labos.Policy.Models.{RequesterType}
use labos.Db.Platform.{Platform}
use labos.Db.Session.{ApiError, World, lift}
use labos.Db.Quiet.{
  Atomic, Atomic-drop, Atomic-with_session, Atomic-bind, Atomic-bind_returned, Atomic-answer,
  atomic_rules,
}
use labos.System.Quiet.Services.{
  endpoint_quiet, run_next-Quiet, create_lab_callback-Quiet, create_run_callback-Quiet,
  destroy-Quiet,
}
use labos.System.Quiet.Snapshots.{snapshot_quiet, create_snapshot-Quiet, restore_snapshot-Quiet}
use labos.Storage.Snapshots.{create_snapshot, restore_snapshot}
use labos.System.Quiet.Answers.{
  HasIsoDates, SaysRestored, creation_failure-restored, restore_failure-restored,
  create_snapshot-new, restore_snapshot-dated, new_response, dated_response,
}
use labos.Api.Snapshots.{create_snapshot_endpoint, restore_snapshot_endpoint}
use labos.System.Quiet.Reconciliation.{reconcile-Quiet}
use labos.Core.Enums.{ApprovalState}
use labos.Workers.Scheduler.{SchedulerJobCreateRequest}
use labos.Runtimes.Base.{LabInspection}
use labos.Api.App.{App}
use labos.Api.Labs.{create_lab, destroy_lab}
use labos.Api.Runs.{create_run}
use labos.Api.Leases.{create_secret_lease, revoke_secret_lease}
use labos.Api.Approvals.{decide_request, approve_request, deny_request}
use labos.Api.Exports.{create_export, deny_export_endpoint}
use labos.Api.SchedulerJobs.{enqueue_scheduler_job, dispatch_next_scheduler_job}
use labos.System.Requests.{Request, reconcile_pass, handle}
use labos.System.Requests.{releases_export}

-- the release of an export records and commits that it was blocked
abbrev pub is_release : Request → Bool
is_release (releases_export id) = true
is_release _ = false

module _ (os : Platform) (app : App) (now : ℕ) where
  create_lab-Atomic :
      (profile : String) (requester : RequesterType)
      → Atomic (create_lab os app now profile requester)
  unfolding create_lab
  create_lab-Atomic profile requester = search (atomic_rules, endpoint_quiet)

  destroy_lab-Atomic : (id : String) → Atomic (destroy_lab os app now id)
  unfolding destroy_lab
  destroy_lab-Atomic id = search (atomic_rules, endpoint_quiet) depth 14

  create_lease-Atomic :
      (id name : String) (requester : RequesterType) (ttl : ℕ)
      → Atomic (create_secret_lease os app now id name requester ttl)
  unfolding create_secret_lease
  create_lease-Atomic id name requester ttl = search (atomic_rules, endpoint_quiet) depth 14

  revoke_lease-Atomic :
      (id actor : String) (reason : Option String)
      → Atomic (revoke_secret_lease os app now id actor reason)
  unfolding revoke_secret_lease
  revoke_lease-Atomic id actor reason = search (atomic_rules, endpoint_quiet) depth 14

  create_run-Atomic :
      (id command : String) (requester : RequesterType)
      → Atomic (create_run os app now id command requester)
  unfolding create_run
  create_run-Atomic id command requester = search (atomic_rules, endpoint_quiet)

  create_export-Atomic :
      (id path : String) (run : Option String) (requester : RequesterType)
      → Atomic (create_export os app now id path run requester)
  unfolding create_export
  create_export-Atomic id path run requester = search (atomic_rules, endpoint_quiet) depth 20

  deny_export_endpoint-Atomic :
      (id reason : String) → Atomic (deny_export_endpoint os app now id reason)
  unfolding deny_export_endpoint
  deny_export_endpoint-Atomic id reason = search (atomic_rules, endpoint_quiet) depth 14

  decide_request-Atomic :
      (event : String) (decision : ApprovalState) (id actor : String) (comment : Option String)
      → Atomic (decide_request os now event decision id actor comment)
  unfolding decide_request
  decide_request-Atomic event decision id actor comment =
      search (atomic_rules, endpoint_quiet) depth 14

  create_snapshot-Atomic :
      (lab : String) (run : Option String) (requester : RequesterType)
      → Atomic (create_snapshot_endpoint os app now lab run requester)
  unfolding create_snapshot_endpoint lift
  create_snapshot-Atomic lab run requester = Atomic-with_session _ (
      Atomic-bind _ _ (search endpoint_quiet) λ row.
        Atomic-bind _ _ (search endpoint_quiet) λ storage.
          Atomic-bind _ _ (search snapshot_quiet) λ _. Atomic-bind _ _ (search atomic_rules) λ id.
            Atomic-bind_returned (SaysRestored none) (create_snapshot os now id row storage run) _
              (create_snapshot-Quiet os now id row storage run)
              (create_snapshot-new os now id row storage run)
              λ created says.
                Atomic-bind_returned (λ m. m.restored_at ≡ none) _ _ (search atomic_rules)
                  (λ w m h. creation_failure-restored os none created m says h)
                  λ m fresh. Atomic-bind _ _ (search atomic_rules) λ _.
                    Atomic-bind _ _ (search endpoint_quiet)
                      λ _. Atomic-answer _ (new_response os _ m fresh))

module _ (os : Platform) (app : App) (now : ℕ) (dates : HasIsoDates os) where
  restore_snapshot-Atomic :
      (id lab : String) (requester : RequesterType)
      → Atomic (restore_snapshot_endpoint os app now id lab requester)
  unfolding restore_snapshot_endpoint lift
  restore_snapshot-Atomic id lab requester = Atomic-with_session _ (
      Atomic-bind _ _ (search snapshot_quiet) λ snapshot.
        Atomic-bind _ _ (search endpoint_quiet) λ target_lab.
          Atomic-bind _ _ (search endpoint_quiet) λ target_storage.
            Atomic-bind_returned (SaysRestored (some (os.isoformat now)))
              (restore_snapshot os now snapshot target_lab target_storage) _
              (restore_snapshot-Quiet os now snapshot target_lab target_storage)
              (restore_snapshot-dated os now snapshot target_lab target_storage)
              λ restored says.
                Atomic-bind_returned (λ m. m.restored_at ≡ some (os.isoformat now)) _ _
                  (search atomic_rules)
                  (λ w m h. restore_failure-restored os (some (os.isoformat now)) restored m says h)
                  λ m dated.
                    Atomic-bind _ _ (search endpoint_quiet)
                      λ _. Atomic-answer _ (dated_response os snapshot m now dates dated))

module _ (os : Platform) (app : App) (describe : ApiError → String) (now : ℕ) where
  approve_request-Atomic :
      (id actor : String) (comment : Option String)
      → Atomic (approve_request os now id actor comment)
  unfolding approve_request
  approve_request-Atomic id actor comment = decide_request-Atomic os app now _ _ id actor comment

  deny_request-Atomic :
      (id actor : String) (comment : Option String) → Atomic (deny_request os now id actor comment)
  unfolding deny_request
  deny_request-Atomic id actor comment = decide_request-Atomic os app now _ _ id actor comment

  enqueue_scheduler_job-Atomic :
      (request : SchedulerJobCreateRequest)
      → Atomic (enqueue_scheduler_job os app describe now request)
  unfolding enqueue_scheduler_job
  enqueue_scheduler_job-Atomic request = search (atomic_rules, endpoint_quiet) depth 14

  dispatch_next-Atomic : Atomic (dispatch_next_scheduler_job os app describe now)
  unfolding dispatch_next_scheduler_job
  dispatch_next-Atomic =
      search
        (
          atomic_rules, endpoint_quiet, run_next-Quiet, create_lab_callback-Quiet,
          create_run_callback-Quiet,
        )
        depth 14

  reconcile_pass-Atomic :
      (inventory : Option (Result String (List LabInspection)))
      → Atomic (reconcile_pass os app describe now inventory)
  unfolding reconcile_pass
  reconcile_pass-Atomic inventory = search (atomic_rules, reconcile-Quiet, destroy-Quiet)

module _ (os : Platform) (app : App) (describe : ApiError → String) (now : ℕ)
    (dates : HasIsoDates os) where
  ruleset handler_rules = (
    Atomic-drop, create_snapshot-Atomic, restore_snapshot-Atomic, create_lab-Atomic,
    destroy_lab-Atomic, create_lease-Atomic, revoke_lease-Atomic, create_run-Atomic,
    create_export-Atomic, deny_export_endpoint-Atomic, approve_request-Atomic, deny_request-Atomic,
    enqueue_scheduler_job-Atomic, dispatch_next-Atomic, reconcile_pass-Atomic,
  )

  handler-Atomic : (r : Request) → is_release r ≡ false → Atomic (handle os app describe now r)
  unfolding handle
  handler-Atomic (releases_export id) h = absurd (cc)
  handler-Atomic _ h = search handler_rules

  -- On a host that reads back the dates that it writes in ISO's form, a request other than the release
  -- of an export leaves the stored database as it was when it raises, also while it builds the
  -- response of a snapshot after the commit. A reconciler pass that raises, as its inventory does,
  -- leaves it so too.
  pub handle-Atomic :
      (r : Request) (w : World os.Disk) (e : ApiError)
      → is_release r ≡ false
      → (handle os app describe now r w).0 ≡ err e
      → (handle os app describe now r w).1.committed ≡ w.committed
  handle-Atomic r w e other raised = (handler-Atomic r other).atomic w e raised
