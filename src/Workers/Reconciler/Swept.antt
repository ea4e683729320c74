-- ===== src/Workers/Reconciler/Swept.antt =====
-- What a reconciler pass leaves of expired leases, stale approvals and overdue runs
-- (labos/workers/reconciler.py).
use labos.Prelude.{ℕ, ◌≡◌, refl, false, some, none, Option, All}
use labos.Prelude.{Bool-cases, inl, inr, ◌==◌, string_eq}
use labos.Db.Rows.{Db, ApprovalRow, lease_key, run_key, approval_key}
use labos.Db.Rows.{LabRow, ExportRow, lab_key, export_key}
use labos.Db.Table.{find}
use labos.Db.Changes.{save_lease, save_run, save_approval, save_lab, save_export, add_event}
use labos.Db.Platform.{Platform}
use labos.Db.Session.{World, pure, ◌>>=◌}
use labos.Core.Events.{write}
use labos.Security.SecretBroker.{lease_before}
use labos.Workers.Reconciler.{
  is_overdue_lease, revoked, revoke_expired, revoke_expired_secret_leases, is_overdue_run,
  timed_out_run, timeout_run, timeout_overdue_runs, run_before, is_stale, expired_approval,
  expire_approval, expire_resource, expire_stale_approvals, approval_before, fail_pending_lab,
  reject_expired_export,
}
use labos.Workers.Reconciler.Sweep.{sweep-All}

-- what an approval is for is no approval
approvals-expire_resource :
    (row : ApprovalRow) (d : Db) → (expire_resource row d).approvals ≡ d.approvals
unfolding expire_resource save_lab save_export
approvals-expire_resource row d = elim (Bool-cases (row.resource_type == "lab")) [
  | inl lab ↦ rw lab (of_lab (find row.resource_id d.labs))
  | inr other ↦ elim (Bool-cases (row.resource_type == "export")) [
    | inl export ↦ rw (other, export) (of_export (find row.resource_id d.exports))
    | inr neither ↦ rw (other, neither) refl
  ]
]
  where
    of_lab : (o : Option LabRow) → (fail_pending_lab o d).approvals ≡ d.approvals
    of_lab none = refl
    of_lab (some lab) = refl

    of_export : (o : Option ExportRow) → (reject_expired_export o d).approvals ≡ d.approvals
    of_export none = refl
    of_export (some export) = refl

module _ (os : Platform) (now : ℕ) where
  -- After the reconciler has revoked expired leases, no lease that it sees is expired at the time of
  -- the pass and not revoked.
  pub revoke_expired_secret_leases-All :
      (w : World os.Disk)
      → All
          (λ r. is_overdue_lease now r ≡ false)
          (revoke_expired_secret_leases os now w).1.db.secret_leases
  unfolding revoke_expired_secret_leases revoke_expired write pure save_lease add_event ◌>>=◌
  revoke_expired_secret_leases-All w =
      sweep-All (is_overdue_lease now) (revoked now) (λ r. refl) (λ r. refl) (λ d. d.secret_leases)
        (revoke_expired os now) (λ row v. (revoke_expired os now row v).1) (λ row v. refl)
        (λ row v. refl) lease_before w

  -- After the reconciler has timed runs out, no run that it sees is queued, starting or running and
  -- past its time.
  pub timeout_overdue_runs-All :
      (w : World os.Disk)
      → All (λ r. is_overdue_run now r ≡ false) (timeout_overdue_runs os now w).1.db.runs
  unfolding timeout_overdue_runs timeout_run write pure save_run add_event ◌>>=◌
  timeout_overdue_runs-All w =
      sweep-All (is_overdue_run now) (timed_out_run now) (λ r. refl) (λ r. refl) (λ d. d.runs)
        (timeout_run os now) (λ row v. (timeout_run os now row v).1) (λ row v. refl) (λ row v. refl)
        run_before w

  -- After the reconciler has expired stale approvals, no approval that it sees is still requested
  -- and past its time.
  pub expire_stale_approvals-All :
      (w : World os.Disk)
      → All (λ r. is_stale now r ≡ false) (expire_stale_approvals os now w).1.db.approvals
  unfolding expire_stale_approvals expire_approval write pure save_approval add_event ◌>>=◌
  expire_stale_approvals-All w =
      sweep-All (is_stale now) (expired_approval now) (λ r. refl) (λ r. refl) (λ d. d.approvals)
        (expire_approval os now) (λ row v. (expire_approval os now row v).1) (λ row v. refl)
        (λ row v. approvals-expire_resource row _) approval_before w
