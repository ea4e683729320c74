-- ===== src/System/Quiet/Reconciliation.antt =====
-- The parts of the reconciler that commit nothing.
use labos.Prelude.{ℕ, String, Option, none, some, List, Result, ok, err}
use labos.Core.Enums.{export_eq, approval_eq, lab_eq}
use labos.Db.Rows.{LabRow, LabStorageRow, ApprovalRow, SecretLeaseRow, RunRow}
use labos.Db.Platform.{Platform}
use labos.Db.Session.{ApiError, Exec}
use labos.System.Quiet.Services.{write-Quiet}
use labos.Db.Quiet.{Quiet, quiet_rules}
use labos.Storage.Allocator.{StorageAllocation}
use labos.Workers.Reconciler.{
  expire_approval, expire_stale_approvals, revoke_expired, revoke_expired_secret_leases,
  timeout_run, timeout_overdue_runs,
}
use labos.Workers.Reconciler.Labs.{
  give_up, after_failure, after_attempt, retry_lab, retry_destroying_lab, retry_destroying_labs,
  fail_lab, check_storage, check_lab, check_labs, report_zombie, judge, check_inspection,
  check_inventory, reconcile,
}
use labos.Runtimes.Base.{LabInspection}

module _ (os : Platform) (now : ℕ) where
  pub expire_approval-Quiet : (row : ApprovalRow) → Quiet (expire_approval os now row)
  unfolding expire_approval
  expire_approval-Quiet row = search (quiet_rules, write-Quiet)

  pub expire_stale_approvals-Quiet : Quiet (expire_stale_approvals os now)
  unfolding expire_stale_approvals
  expire_stale_approvals-Quiet = search (quiet_rules, write-Quiet, expire_approval-Quiet)

  pub revoke_expired-Quiet : (row : SecretLeaseRow) → Quiet (revoke_expired os now row)
  unfolding revoke_expired
  revoke_expired-Quiet row =
      search (quiet_rules, write-Quiet, expire_approval-Quiet, expire_stale_approvals-Quiet)

  pub revoke_expired_secret_leases-Quiet : Quiet (revoke_expired_secret_leases os now)
  unfolding revoke_expired_secret_leases
  revoke_expired_secret_leases-Quiet = search (
    quiet_rules, write-Quiet, expire_approval-Quiet, expire_stale_approvals-Quiet,
    revoke_expired-Quiet,
  )

  pub timeout_run-Quiet : (row : RunRow) → Quiet (timeout_run os now row)
  unfolding timeout_run
  timeout_run-Quiet row = search (
    quiet_rules, write-Quiet, expire_approval-Quiet, expire_stale_approvals-Quiet,
    revoke_expired-Quiet, revoke_expired_secret_leases-Quiet,
  )

  pub timeout_overdue_runs-Quiet : Quiet (timeout_overdue_runs os now)
  unfolding timeout_overdue_runs
  timeout_overdue_runs-Quiet = search (
    quiet_rules, write-Quiet, expire_approval-Quiet, expire_stale_approvals-Quiet,
    revoke_expired-Quiet, revoke_expired_secret_leases-Quiet, timeout_run-Quiet,
  )

  pub fail_lab-Quiet : (lab : LabRow) (reason : Option String) → Quiet (fail_lab os now lab reason)
  unfolding fail_lab
  fail_lab-Quiet lab none = search (
    quiet_rules, write-Quiet, expire_approval-Quiet, expire_stale_approvals-Quiet,
    revoke_expired-Quiet, revoke_expired_secret_leases-Quiet, timeout_run-Quiet,
    timeout_overdue_runs-Quiet,
  )
  fail_lab-Quiet lab (some reason) = search (
    quiet_rules, write-Quiet, expire_approval-Quiet, expire_stale_approvals-Quiet,
    revoke_expired-Quiet, revoke_expired_secret_leases-Quiet, timeout_run-Quiet,
    timeout_overdue_runs-Quiet,
  )

  pub check_storage-Quiet : (lab : LabRow) → Quiet (check_storage os now lab)
  unfolding check_storage
  check_storage-Quiet lab = search (
    quiet_rules, write-Quiet, expire_approval-Quiet, expire_stale_approvals-Quiet,
    revoke_expired-Quiet, revoke_expired_secret_leases-Quiet, timeout_run-Quiet,
    timeout_overdue_runs-Quiet, fail_lab-Quiet,
  )

  pub check_lab-Quiet : (lab : LabRow) → Quiet (check_lab os now lab)
  unfolding check_lab
  check_lab-Quiet lab = search (
    quiet_rules, write-Quiet, expire_approval-Quiet, expire_stale_approvals-Quiet,
    revoke_expired-Quiet, revoke_expired_secret_leases-Quiet, timeout_run-Quiet,
    timeout_overdue_runs-Quiet, fail_lab-Quiet, check_storage-Quiet,
  )

  pub check_labs-Quiet : Quiet (check_labs os now)
  unfolding check_labs
  check_labs-Quiet = search (
    quiet_rules, write-Quiet, expire_approval-Quiet, expire_stale_approvals-Quiet,
    revoke_expired-Quiet, revoke_expired_secret_leases-Quiet, timeout_run-Quiet,
    timeout_overdue_runs-Quiet, fail_lab-Quiet, check_storage-Quiet, check_lab-Quiet,
  )

  pub report_zombie-Quiet : (i : LabInspection) (lab : LabRow) → Quiet (report_zombie os now i lab)
  unfolding report_zombie
  report_zombie-Quiet i lab = search (
    quiet_rules, write-Quiet, expire_approval-Quiet, expire_stale_approvals-Quiet,
    revoke_expired-Quiet, revoke_expired_secret_leases-Quiet, timeout_run-Quiet,
    timeout_overdue_runs-Quiet, fail_lab-Quiet, check_storage-Quiet, check_lab-Quiet,
    check_labs-Quiet,
  )

  pub judge-Quiet : (i : LabInspection) (lab : Option LabRow) → Quiet (judge os now i lab)
  unfolding judge
  judge-Quiet i none = search (
    quiet_rules, write-Quiet, expire_approval-Quiet, expire_stale_approvals-Quiet,
    revoke_expired-Quiet, revoke_expired_secret_leases-Quiet, timeout_run-Quiet,
    timeout_overdue_runs-Quiet, fail_lab-Quiet, check_storage-Quiet, check_lab-Quiet,
    check_labs-Quiet, report_zombie-Quiet,
  )
  judge-Quiet i (some lab) = search (
    quiet_rules, write-Quiet, expire_approval-Quiet, expire_stale_approvals-Quiet,
    revoke_expired-Quiet, revoke_expired_secret_leases-Quiet, timeout_run-Quiet,
    timeout_overdue_runs-Quiet, fail_lab-Quiet, check_storage-Quiet, check_lab-Quiet,
    check_labs-Quiet, report_zombie-Quiet,
  )

  pub check_inspection-Quiet : (i : LabInspection) → Quiet (check_inspection os now i)
  unfolding check_inspection
  check_inspection-Quiet i = search (
    quiet_rules, write-Quiet, expire_approval-Quiet, expire_stale_approvals-Quiet,
    revoke_expired-Quiet, revoke_expired_secret_leases-Quiet, timeout_run-Quiet,
    timeout_overdue_runs-Quiet, fail_lab-Quiet, check_storage-Quiet, check_lab-Quiet,
    check_labs-Quiet, report_zombie-Quiet, judge-Quiet,
  )

  pub check_inventory-Quiet :
      (inventory : Option (Result String (List LabInspection)))
      → Quiet (check_inventory os now inventory)
  unfolding check_inventory
  check_inventory-Quiet none = search (
    quiet_rules, write-Quiet, expire_approval-Quiet, expire_stale_approvals-Quiet,
    revoke_expired-Quiet, revoke_expired_secret_leases-Quiet, timeout_run-Quiet,
    timeout_overdue_runs-Quiet, fail_lab-Quiet, check_storage-Quiet, check_lab-Quiet,
    check_labs-Quiet, report_zombie-Quiet, judge-Quiet, check_inspection-Quiet,
  )
  check_inventory-Quiet (some (err e)) = search quiet_rules
  check_inventory-Quiet (some (ok inspections)) = search (
    quiet_rules, write-Quiet, expire_approval-Quiet, expire_stale_approvals-Quiet,
    revoke_expired-Quiet, revoke_expired_secret_leases-Quiet, timeout_run-Quiet,
    timeout_overdue_runs-Quiet, fail_lab-Quiet, check_storage-Quiet, check_lab-Quiet,
    check_labs-Quiet, report_zombie-Quiet, judge-Quiet, check_inspection-Quiet,
  )

ruleset pass_quiet = (
  write-Quiet, expire_approval-Quiet, expire_stale_approvals-Quiet, revoke_expired-Quiet,
  revoke_expired_secret_leases-Quiet, timeout_run-Quiet, timeout_overdue_runs-Quiet, fail_lab-Quiet,
  check_storage-Quiet, check_lab-Quiet, check_labs-Quiet, report_zombie-Quiet, judge-Quiet,
  check_inspection-Quiet, check_inventory-Quiet,
)

module _ (os : Platform) (describe : ApiError → String) (now max : ℕ) where
  pub give_up-Quiet : (lab : LabRow) → Quiet (give_up os describe now max lab)
  unfolding give_up
  give_up-Quiet lab = search (quiet_rules, pass_quiet)

  pub after_failure-Quiet : (lab : LabRow) → Quiet (after_failure os describe now max lab)
  unfolding after_failure
  after_failure-Quiet lab = search (quiet_rules, pass_quiet, give_up-Quiet)

  pub after_attempt-Quiet :
      (lab : LabRow) (outcome : Result ApiError Unit)
      → Quiet (after_attempt os describe now max lab outcome)
  unfolding after_attempt
  after_attempt-Quiet lab (err e) =
      search (quiet_rules, pass_quiet, give_up-Quiet, after_failure-Quiet)
  after_attempt-Quiet lab (ok u) =
      search (quiet_rules, pass_quiet, give_up-Quiet, after_failure-Quiet)

ruleset retry_quiet = (pass_quiet, give_up-Quiet, after_failure-Quiet, after_attempt-Quiet)

module _ (os : Platform) (describe : ApiError → String) (now max : ℕ)
    (remove : StorageAllocation → Exec os.Disk Unit)
    (remove_quiet : (a : StorageAllocation) → Quiet (remove a)) where
  pub retry_lab-Quiet :
      (lab : LabRow) (storage : Option LabStorageRow)
      → Quiet (retry_lab os describe now max remove lab storage)
  unfolding retry_lab
  retry_lab-Quiet lab none = search (quiet_rules, retry_quiet, remove_quiet)
  retry_lab-Quiet lab (some storage) = search (quiet_rules, retry_quiet, remove_quiet)

  pub retry_destroying_lab-Quiet :
      (lab : LabRow) → Quiet (retry_destroying_lab os describe now max remove lab)
  unfolding retry_destroying_lab
  retry_destroying_lab-Quiet lab = search (quiet_rules, retry_quiet, remove_quiet, retry_lab-Quiet)

  pub retry_destroying_labs-Quiet : Quiet (retry_destroying_labs os describe now max (some remove))
  unfolding retry_destroying_labs
  retry_destroying_labs-Quiet =
      search (quiet_rules, retry_quiet, remove_quiet, retry_lab-Quiet, retry_destroying_lab-Quiet)

module _ (os : Platform) (describe : ApiError → String) (now : ℕ) where
  pub reconcile-Quiet :
      (inventory : Option (Result String (List LabInspection))) (attempts : ℕ)
      (remove : StorageAllocation → Exec os.Disk Unit)
      → ((a : StorageAllocation) → Quiet (remove a))
      → Quiet (
          reconcile os describe
            (record {
              runtime_inventory = inventory;
              storage_destroyer = some remove;
              max_destroy_attempts = attempts;
            })
            now)
  unfolding reconcile
  reconcile-Quiet inventory attempts remove quiet =
      search (quiet_rules, retry_quiet, retry_destroying_labs-Quiet, quiet) depth 14
