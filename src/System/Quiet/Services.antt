-- ===== src/System/Quiet/Services.antt =====
-- The parts of the services behind the endpoints that commit nothing.
use labos.Prelude.{ℕ, String, Bool, true, false, Option, none, some, Result, ok, err}
use labos.Core.Enums.{SchedulerAction, export_eq, approval_eq, lab_eq}
use labos.Core.Events.{EventRecord, write}
use labos.Policy.Models.{RequesterType}
use labos.Policy.Engine.{Profiles, RequestDecision, ExportDecision}
use labos.Db.Rows.{FilePath, LabRow, LabStorageRow, ExportRow, SchedulerJobRow}
use labos.Db.Platform.{Platform}
use labos.Db.Session.{ApiError, Exec}
use labos.System.Quiet.{lookup_quiet}
use labos.Db.Quiet.{Quiet, Quiet-raise, quiet_rules}
use labos.Storage.Allocator.{
  StoragePolicy, StorageAllocation, allocate, assert_managed_path, destroy,
}
use labos.Security.ExportGate.{GateError, quarantine, stage_export, copy_out, release_export}
use labos.Security.SecretBroker.{LeaseError, add_issued, issue_lease}
use labos.Workers.Scheduler.{
  SchedulerJobCreateRequest, add_enqueued, enqueue, or_assert, perform, run_job, run_found,
  run_next,
}
use labos.Api.App.{App, record_approval_request}
use labos.Api.Labs.{request_lab_approval, create_lab_record}
use labos.Api.Runs.{create_run_record}
use labos.Api.Exports.{request_export_approval}
use labos.Api.SchedulerJobs.{create_lab_callback, create_run_callback}

module _ (os : Platform) where
  pub write-Quiet : (now : ℕ) (event : EventRecord) → Quiet (write os now event)
  unfolding write
  write-Quiet now event = search (quiet_rules, lookup_quiet)

  pub record_approval_request-Quiet :
      (now : ℕ) (lab : Option String) (kind id action reason by : String)
      → Quiet (record_approval_request os now lab kind id action reason by)
  unfolding record_approval_request
  record_approval_request-Quiet now lab kind id action reason by =
      search (quiet_rules, lookup_quiet, write-Quiet)

  pub allocate-Quiet :
      (root : FilePath) (id : String) (policy : StoragePolicy) → Quiet (allocate os root id policy)
  unfolding allocate
  allocate-Quiet root id policy =
      search (quiet_rules, lookup_quiet, write-Quiet, record_approval_request-Quiet)

  pub assert_managed_path-Quiet :
      (root : FilePath) (path : FilePath) → Quiet (assert_managed_path os root path)
  unfolding assert_managed_path
  assert_managed_path-Quiet root path =
      search (quiet_rules, lookup_quiet, write-Quiet, record_approval_request-Quiet, allocate-Quiet)

  pub destroy-Quiet : (root : FilePath) (a : StorageAllocation) → Quiet (destroy os root a)
  unfolding destroy
  destroy-Quiet root a = search (
    quiet_rules, lookup_quiet, write-Quiet, record_approval_request-Quiet, allocate-Quiet,
    assert_managed_path-Quiet,
  )

  pub quarantine-Quiet :
      (id : String) (lab : LabRow) (storage : LabStorageRow) (path : String) (run : Option String)
      (admitted : Result GateError (ExportDecision × FilePath))
      → Quiet (quarantine os id lab storage path run admitted)
  unfolding quarantine
  quarantine-Quiet id lab storage path run (err e) = search (
    quiet_rules, lookup_quiet, write-Quiet, record_approval_request-Quiet, allocate-Quiet,
    assert_managed_path-Quiet, destroy-Quiet,
  )
  quarantine-Quiet id lab storage path run (ok (decision, source)) = search (
    quiet_rules, lookup_quiet, write-Quiet, record_approval_request-Quiet, allocate-Quiet,
    assert_managed_path-Quiet, destroy-Quiet,
  )

  pub stage_export-Quiet :
      (profiles : Profiles) (id : String) (lab : LabRow) (storage : LabStorageRow) (path : String)
      (run : Option String)
      → Quiet (stage_export os profiles id lab storage path run)
  unfolding stage_export
  stage_export-Quiet profiles id lab storage path run = search (
    quiet_rules, lookup_quiet, write-Quiet, record_approval_request-Quiet, allocate-Quiet,
    assert_managed_path-Quiet, destroy-Quiet, quarantine-Quiet,
  )

  pub copy_out-Quiet :
      (row : ExportRow) (storage : LabStorageRow) (checked : Result GateError Unit)
      → Quiet (copy_out os row storage checked)
  unfolding copy_out
  copy_out-Quiet row storage (err e) = search (
    quiet_rules, lookup_quiet, write-Quiet, record_approval_request-Quiet, allocate-Quiet,
    assert_managed_path-Quiet, destroy-Quiet, quarantine-Quiet, stage_export-Quiet,
  )
  copy_out-Quiet row storage (ok u) = search (
    quiet_rules, lookup_quiet, write-Quiet, record_approval_request-Quiet, allocate-Quiet,
    assert_managed_path-Quiet, destroy-Quiet, quarantine-Quiet, stage_export-Quiet,
  )

  pub release_export-Quiet :
      (row : ExportRow) (storage : LabStorageRow) → Quiet (release_export os row storage)
  unfolding release_export
  release_export-Quiet row storage = search (
    quiet_rules, lookup_quiet, write-Quiet, record_approval_request-Quiet, allocate-Quiet,
    assert_managed_path-Quiet, destroy-Quiet, quarantine-Quiet, stage_export-Quiet, copy_out-Quiet,
  )

  pub add_issued-Quiet :
      (now : ℕ) (lab name : String) (ttl : ℕ) (checked : Result LeaseError Unit)
      → Quiet (add_issued os now lab name ttl checked)
  unfolding add_issued
  add_issued-Quiet now lab name ttl (err e) = search (
    quiet_rules, lookup_quiet, write-Quiet, record_approval_request-Quiet, allocate-Quiet,
    assert_managed_path-Quiet, destroy-Quiet, quarantine-Quiet, stage_export-Quiet, copy_out-Quiet,
    release_export-Quiet,
  )
  add_issued-Quiet now lab name ttl (ok u) = search (
    quiet_rules, lookup_quiet, write-Quiet, record_approval_request-Quiet, allocate-Quiet,
    assert_managed_path-Quiet, destroy-Quiet, quarantine-Quiet, stage_export-Quiet, copy_out-Quiet,
    release_export-Quiet,
  )

  pub issue_lease-Quiet :
      (profiles : Profiles) (now : ℕ) (lab name : String) (ttl : ℕ)
      → Quiet (issue_lease os profiles now lab name ttl)
  unfolding issue_lease
  issue_lease-Quiet profiles now lab name ttl = search (
    quiet_rules, lookup_quiet, write-Quiet, record_approval_request-Quiet, allocate-Quiet,
    assert_managed_path-Quiet, destroy-Quiet, quarantine-Quiet, stage_export-Quiet, copy_out-Quiet,
    release_export-Quiet, add_issued-Quiet,
  )

  pub add_enqueued-Quiet :
      (now : ℕ) (request : SchedulerJobCreateRequest) (full : Bool)
      → Quiet (add_enqueued os now request full)
  unfolding add_enqueued
  add_enqueued-Quiet now request true = search (
    quiet_rules, lookup_quiet, write-Quiet, record_approval_request-Quiet, allocate-Quiet,
    assert_managed_path-Quiet, destroy-Quiet, quarantine-Quiet, stage_export-Quiet, copy_out-Quiet,
    release_export-Quiet, add_issued-Quiet, issue_lease-Quiet,
  )
  add_enqueued-Quiet now request false = search (
    quiet_rules, lookup_quiet, write-Quiet, record_approval_request-Quiet, allocate-Quiet,
    assert_managed_path-Quiet, destroy-Quiet, quarantine-Quiet, stage_export-Quiet, copy_out-Quiet,
    release_export-Quiet, add_issued-Quiet, issue_lease-Quiet,
  )

  pub enqueue-Quiet :
      (now max : ℕ) (request : SchedulerJobCreateRequest) → Quiet (enqueue os now max request)
  unfolding enqueue
  enqueue-Quiet now max request = search (
    quiet_rules, lookup_quiet, write-Quiet, record_approval_request-Quiet, allocate-Quiet,
    assert_managed_path-Quiet, destroy-Quiet, quarantine-Quiet, stage_export-Quiet, copy_out-Quiet,
    release_export-Quiet, add_issued-Quiet, issue_lease-Quiet, add_enqueued-Quiet,
  )

pub ruleset service_quiet = (
  write-Quiet, record_approval_request-Quiet, allocate-Quiet, assert_managed_path-Quiet,
  destroy-Quiet, quarantine-Quiet, stage_export-Quiet, copy_out-Quiet, release_export-Quiet,
  add_issued-Quiet, issue_lease-Quiet, add_enqueued-Quiet, enqueue-Quiet,
)

module _ (os : Platform) (app : App) (now : ℕ) where
  pub request_lab_approval-Quiet :
      (requester : RequesterType) (id : String) (decision : RequestDecision)
      → Quiet (request_lab_approval os app now requester id decision)
  unfolding request_lab_approval
  request_lab_approval-Quiet requester id decision =
      search (quiet_rules, lookup_quiet, service_quiet)

  pub create_lab_record-Quiet :
      (profile : String) (requester : RequesterType)
      → Quiet (create_lab_record os app now profile requester)
  unfolding create_lab_record
  create_lab_record-Quiet profile requester =
      search (quiet_rules, lookup_quiet, service_quiet, request_lab_approval-Quiet) depth 14

  pub create_run_record-Quiet :
      (lab command : String) (requester : RequesterType)
      → Quiet (create_run_record os app now lab command requester)
  unfolding create_run_record
  create_run_record-Quiet lab command requester = search (
    quiet_rules, lookup_quiet, service_quiet, request_lab_approval-Quiet, create_lab_record-Quiet,
  )

  pub request_export_approval-Quiet :
      (lab : String) (run : Option String) (id : String)
      → Quiet (request_export_approval os app now lab run id)
  unfolding request_export_approval
  request_export_approval-Quiet lab run id = search (
    quiet_rules, lookup_quiet, service_quiet, request_lab_approval-Quiet, create_lab_record-Quiet,
    create_run_record-Quiet,
  )

module _ (os : Platform) (app : App) (describe : ApiError → String) (now : ℕ) where
  pub create_lab_callback-Quiet :
      (profile : String) → Quiet (create_lab_callback os app describe now profile)
  unfolding create_lab_callback
  create_lab_callback-Quiet profile = search (
    quiet_rules, lookup_quiet, service_quiet, request_lab_approval-Quiet, create_lab_record-Quiet,
    create_run_record-Quiet, request_export_approval-Quiet,
  )

  pub create_run_callback-Quiet :
      (lab command : String) → Quiet (create_run_callback os app describe now lab command)
  unfolding create_run_callback
  create_run_callback-Quiet lab command = search (
    quiet_rules, lookup_quiet, service_quiet, request_lab_approval-Quiet, create_lab_record-Quiet,
    create_run_record-Quiet, request_export_approval-Quiet, create_lab_callback-Quiet,
  )

pub ruleset endpoint_quiet = (
  lookup_quiet, service_quiet, request_lab_approval-Quiet, create_lab_record-Quiet,
  create_run_record-Quiet, request_export_approval-Quiet, create_lab_callback-Quiet,
  create_run_callback-Quiet,
)

or_assert-Quiet :
    {D A : Type 0} (o : Option A) (k : A → Exec D (String × String))
    → ((a : A) → Quiet (k a))
    → Quiet (or_assert o k)
unfolding or_assert
or_assert-Quiet none k q = Quiet-raise _
or_assert-Quiet (some a) k q = q a

module _ {D : Type 0} (describe : ApiError → String) (create_lab : String → Exec D String)
    (create_run : String → String → Exec D String) (now : ℕ)
    (lab_quiet : (profile : String) → Quiet (create_lab profile))
    (run_quiet : (lab command : String) → Quiet (create_run lab command)) where
  perform-Quiet :
      (action : SchedulerAction) (job : SchedulerJobRow)
      → Quiet (perform describe create_lab create_run now action job)
  unfolding perform
  perform-Quiet SchedulerAction.create_lab job = search (quiet_rules, or_assert-Quiet, lab_quiet)
  perform-Quiet SchedulerAction.start_run job = search (quiet_rules, or_assert-Quiet, run_quiet)

  pub run_job-Quiet :
      (job : SchedulerJobRow) → Quiet (run_job describe create_lab create_run now job)
  unfolding run_job
  run_job-Quiet job = search (quiet_rules, lookup_quiet, perform-Quiet, lab_quiet, run_quiet)

  pub run_found-Quiet :
      (found : Option SchedulerJobRow) → Quiet (run_found describe create_lab create_run now found)
  unfolding run_found
  run_found-Quiet none =
      search (quiet_rules, lookup_quiet, perform-Quiet, lab_quiet, run_quiet, run_job-Quiet)
  run_found-Quiet (some job) =
      search (quiet_rules, lookup_quiet, perform-Quiet, lab_quiet, run_quiet, run_job-Quiet)

  pub run_next-Quiet : Quiet (run_next describe create_lab create_run now)
  unfolding run_next
  run_next-Quiet = search (
    quiet_rules, lookup_quiet, perform-Quiet, lab_quiet, run_quiet, run_job-Quiet, run_found-Quiet,
  )
