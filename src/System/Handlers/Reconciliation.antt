-- ===== src/System/Handlers/Reconciliation.antt =====
-- The reconciler keeps `Sound`, whatever the runtime lists and the destroyer does to the disk.
use labos.Prelude.{
  ℕ, ◌≡◌, refl, String, Bool, true, false, Option, none, some, arith, Result, ok, err,
}
use labos.Prelude.{is_blank, All, List, [], ◌∷◌, if◌then◌else◌, ◌==◌, string_eq}
use labos.Core.Enums.{lab_eq}
use labos.Db.Rows.{Db, LabRow, LabStorageRow, RunRow, ApprovalRow, ExportRow, SecretLeaseRow}
use labos.Db.Rows.{lab_key, export_key}
use labos.Db.Table.{find, All-find, All-order_by, All-keep}
use labos.Db.Platform.{Platform}
use labos.Security.SecretBroker.{lease_before}
use labos.Db.Session.{ApiError, Exec}
use labos.Db.Keeps.{
  Keeps, Keeps-bind, Keeps-bind-gets, Keeps-each, Keeps-if, Keeps-modify, Keeps-attempt,
}
use labos.Db.Keeps.{keeps_rules}
use labos.Storage.Allocator.{StorageAllocation}
use labos.Workers.Reconciler.{
  is_stale, expired_approval, fail_pending, reject_expired, fail_pending_lab, reject_expired_export,
  expire_resource, approval_before, expire_approval, expire_stale_approvals, is_overdue_lease,
  revoked, revoke_expired, revoke_expired_secret_leases, timed_out_run, is_overdue_run, run_before,
  timeout_run, timeout_overdue_runs,
}
use labos.Workers.Reconciler.Labs.{
  lab_before, lost_storage, attempted, attempt_failed, given_up, gone, give_up, after_failure,
  after_attempt, retry_lab, retry_destroying_lab, retry_destroying_labs, failed_lab, fail_lab,
  check_storage, check_lab, check_labs, report_zombie, judge, check_inspection, check_inventory,
  ReconciliationService, reconcile,
}
use labos.Runtimes.Base.{LabInspection}
use labos.System.Sound.{Sound, LabSound, RunSound, ApprovalSound, ExportSound, LeaseSound}
use labos.System.Rules.{sound_rules, Sound-save_lab, Sound-save_export}
use labos.System.Handlers.{write-Sound}

expired_approval-Sound : (now : ℕ) (row : ApprovalRow) → ApprovalSound (expired_approval now row)
expired_approval-Sound now row = ground arith

fail_pending-Sound : (lab : LabRow) → LabSound lab → LabSound (fail_pending lab)
fail_pending-Sound lab s = ground arith

reject_expired-Sound : (export : ExportRow) → ExportSound (reject_expired export)
unfolding is_blank
reject_expired-Sound export = record {
  staged = refl;
  cleared = λ h. refl;
  released_path = λ h. absurd (cc);
  reason = refl;
}

fail_pending_lab-Sound :
    (o : Option LabRow) (d : Db)
    → ((l : LabRow) → o ≡ some l → LabSound l)
    → Sound d
    → Sound (fail_pending_lab o d)
fail_pending_lab-Sound none d s h = h
fail_pending_lab-Sound (some lab) d s h =
    Sound-save_lab (fail_pending lab) d (fail_pending-Sound lab (s lab refl)) h

reject_expired_export-Sound :
    (o : Option ExportRow) (d : Db) → Sound d → Sound (reject_expired_export o d)
reject_expired_export-Sound none d h = h
reject_expired_export-Sound (some export) d h =
    Sound-save_export (reject_expired export) d (reject_expired-Sound export) h

if-Sound : (b : Bool) (d e : Db) → Sound d → Sound e → Sound (if b then d else e)
if-Sound true d e h k = h
if-Sound false d e h k = k

expire_resource-Sound : (row : ApprovalRow) (d : Db) → Sound d → Sound (expire_resource row d)
unfolding expire_resource
expire_resource-Sound row d h =
    if-Sound (row.resource_type == "lab") _ _
      (fail_pending_lab-Sound (find row.resource_id d.labs) d
        (λ l found. All-find LabSound row.resource_id d.labs h.labs found) h)
      (if-Sound (row.resource_type == "export") _ _
        (reject_expired_export-Sound (find row.resource_id d.exports) d h) h)

module _ (os : Platform) (now : ℕ) where
  expire_approval-Sound : (row : ApprovalRow) → Keeps Sound (expire_approval os now row)
  unfolding expire_approval
  expire_approval-Sound row = Keeps-bind _ _ (search (sound_rules, expired_approval-Sound)) λ _.
      Keeps-bind _ _ (Keeps-modify _ (expire_resource-Sound row))
        λ _. search (sound_rules, write-Sound)

  expire_stale_approvals-Sound : Keeps Sound (expire_stale_approvals os now)
  unfolding expire_stale_approvals
  expire_stale_approvals-Sound =
      Keeps-bind-gets (All ApprovalSound) _ _
        (λ d h.
          All-order_by ApprovalSound approval_before _
            (All-keep ApprovalSound (is_stale now) d.approvals h.approvals))
        (Keeps-each ApprovalSound (expire_approval os now) (λ row _. expire_approval-Sound row))

  revoked-Sound : (row : SecretLeaseRow) → LeaseSound row → LeaseSound (revoked now row)
  revoked-Sound row s = ground arith

  revoke_expired-Sound :
      (row : SecretLeaseRow) → LeaseSound row → Keeps Sound (revoke_expired os now row)
  unfolding revoke_expired
  revoke_expired-Sound row s =
      let s' = revoked-Sound row s in search (sound_rules, write-Sound) depth 8

  revoke_expired_secret_leases-Sound : Keeps Sound (revoke_expired_secret_leases os now)
  unfolding revoke_expired_secret_leases
  revoke_expired_secret_leases-Sound =
      Keeps-bind-gets (All LeaseSound) _ _
        (λ d h.
          All-order_by LeaseSound lease_before _
            (All-keep LeaseSound (is_overdue_lease now) d.secret_leases h.leases))
        (Keeps-each LeaseSound (revoke_expired os now) revoke_expired-Sound)

  timed_out_run-Sound : (row : RunRow) → RunSound (timed_out_run now row)
  timed_out_run-Sound row = ground arith

  timeout_run-Sound : (row : RunRow) → Keeps Sound (timeout_run os now row)
  unfolding timeout_run
  timeout_run-Sound row =
      let s = timed_out_run-Sound row in search (sound_rules, write-Sound) depth 8

  timeout_overdue_runs-Sound : Keeps Sound (timeout_overdue_runs os now)
  unfolding timeout_overdue_runs
  timeout_overdue_runs-Sound =
      Keeps-bind-gets (All RunSound) _ _
        (λ d h.
          All-order_by RunSound run_before _ (All-keep RunSound (is_overdue_run now) d.runs h.runs))
        (Keeps-each RunSound (timeout_run os now) (λ row _. timeout_run-Sound row))

module _ (os : Platform) (describe : ApiError → String) (now max_attempts : ℕ) where
  lost_storage-Sound : (lab : LabRow) → LabSound (lost_storage lab)
  lost_storage-Sound lab = ground arith

  attempted-Sound : (lab : LabRow) → LabSound lab → LabSound (attempted lab)
  attempted-Sound lab s = ground arith

  attempt_failed-Sound :
      (m : String) (lab : LabRow) → LabSound lab → LabSound (attempt_failed m lab)
  attempt_failed-Sound m lab s = ground arith

  given_up-Sound : (lab : LabRow) → LabSound (given_up lab)
  given_up-Sound lab = ground arith

  gone-Sound : (lab : LabRow) → LabSound (gone lab)
  gone-Sound lab = ground arith

  give_up-Sound : (lab : LabRow) → Keeps Sound (give_up os describe now max_attempts lab)
  unfolding give_up
  give_up-Sound lab = let s = given_up-Sound lab in search (sound_rules, write-Sound) depth 8

  after_failure-Sound :
      (lab : LabRow) → LabSound lab → Keeps Sound (after_failure os describe now max_attempts lab)
  unfolding after_failure
  after_failure-Sound lab s = search (sound_rules, write-Sound, Keeps-if, give_up-Sound) depth 8

  after_attempt-Sound :
      (lab : LabRow) (r : Result ApiError Unit)
      → LabSound lab
      → Keeps Sound (after_attempt os describe now max_attempts lab r)
  unfolding after_attempt
  after_attempt-Sound lab (err e) s =
      after_failure-Sound (attempt_failed (describe e) lab)
        (attempt_failed-Sound (describe e) lab s)
  after_attempt-Sound lab (ok u) s =
      let s' = gone-Sound lab in search (sound_rules, write-Sound) depth 8

  module _ (destroy : StorageAllocation → Exec os.Disk Unit)
      (destroy_keeps : (a : StorageAllocation) → Keeps Sound (destroy a)) where
    retry_lab-Sound :
        (lab : LabRow) (o : Option LabStorageRow)
        → LabSound lab
        → Keeps Sound (retry_lab os describe now max_attempts destroy lab o)
    unfolding retry_lab
    retry_lab-Sound lab none s =
        let s' = lost_storage-Sound lab in search (sound_rules, write-Sound) depth 8
    retry_lab-Sound lab (some storage) s =
        let s' = attempted-Sound lab s in
        Keeps-bind _ _ (search sound_rules) λ _.
          Keeps-bind _ _ (Keeps-attempt _ (destroy_keeps _))
            λ outcome. after_attempt-Sound (attempted lab) outcome s'

    retry_destroying_lab-Sound :
        (lab : LabRow)
        → LabSound lab
        → Keeps Sound (retry_destroying_lab os describe now max_attempts destroy lab)
    unfolding retry_destroying_lab
    retry_destroying_lab-Sound lab s =
        Keeps-bind _ _ (search sound_rules) λ storage. retry_lab-Sound lab storage s

  -- what is assumed of the destroyer: it works on the disk
  abbrev pub DestroyerKeeps : Option (StorageAllocation → Exec os.Disk Unit) → Type 0
  DestroyerKeeps none = Unit
  DestroyerKeeps (some destroy) = (a : StorageAllocation) → Keeps Sound (destroy a)

  retry_destroying_labs-Sound :
      (destroyer : Option (StorageAllocation → Exec os.Disk Unit))
      → DestroyerKeeps destroyer
      → Keeps Sound (retry_destroying_labs os describe now max_attempts destroyer)
  unfolding retry_destroying_labs
  retry_destroying_labs-Sound none k = search keeps_rules
  retry_destroying_labs-Sound (some destroy) k =
      Keeps-bind-gets (All LabSound) _ _
        (λ d h. All-order_by LabSound lab_before _ (All-keep LabSound _ d.labs h.labs))
        (Keeps-each LabSound _ (retry_destroying_lab-Sound destroy k))

module _ (os : Platform) (now : ℕ) where
  failed_lab-Sound : (lab : LabRow) → LabSound (failed_lab lab)
  failed_lab-Sound lab = ground arith

  fail_lab-Sound :
      (lab : LabRow) (reason : Option String) → Keeps Sound (fail_lab os now lab reason)
  unfolding fail_lab
  fail_lab-Sound lab none = search keeps_rules
  fail_lab-Sound lab (some reason) =
      let s = failed_lab-Sound lab in search (sound_rules, write-Sound) depth 8

  check_storage-Sound : (lab : LabRow) → Keeps Sound (check_storage os now lab)
  unfolding check_storage
  check_storage-Sound lab = search (keeps_rules, fail_lab-Sound)

  check_lab-Sound : (lab : LabRow) → Keeps Sound (check_lab os now lab)
  unfolding check_lab
  check_lab-Sound lab = search (keeps_rules, Keeps-if, check_storage-Sound)

  check_labs-Sound : Keeps Sound (check_labs os now)
  unfolding check_labs
  check_labs-Sound =
      Keeps-bind-gets (All LabSound) _ _ (λ d h. All-order_by LabSound lab_before _ h.labs)
        (Keeps-each LabSound (check_lab os now) (λ lab _. check_lab-Sound lab))

  report_zombie-Sound :
      (i : LabInspection) (lab : LabRow) → Keeps Sound (report_zombie os now i lab)
  unfolding report_zombie
  report_zombie-Sound i lab = search (keeps_rules, write-Sound)

  judge-Sound : (i : LabInspection) (o : Option LabRow) → Keeps Sound (judge os now i o)
  unfolding judge
  judge-Sound i none = search (keeps_rules, write-Sound)
  judge-Sound i (some lab) = search (keeps_rules, Keeps-if, report_zombie-Sound)

  check_inspection-Sound : (i : LabInspection) → Keeps Sound (check_inspection os now i)
  unfolding check_inspection
  check_inspection-Sound i = search (keeps_rules, judge-Sound)

  inspections-All : (is : List LabInspection) → All (λ i. Unit {0}) is
  inspections-All [] = tt
  inspections-All (i ∷ is) = (tt, inspections-All is)

  check_inventory-Sound :
      (inventory : Option (Result String (List LabInspection)))
      → Keeps Sound (check_inventory os now inventory)
  unfolding check_inventory
  check_inventory-Sound none = search keeps_rules
  check_inventory-Sound (some (err e)) = search keeps_rules
  check_inventory-Sound (some (ok is)) =
      Keeps-each (λ i. Unit {0}) (check_inspection os now) (λ i _. check_inspection-Sound i) is
        (inspections-All is)

pub reconcile-Sound :
    (os : Platform) (describe : ApiError → String) (service : ReconciliationService os) (now : ℕ)
    → DestroyerKeeps os describe now service.max_destroy_attempts service.storage_destroyer
    → Keeps Sound (reconcile os describe service now)
unfolding reconcile
reconcile-Sound os describe service now k =
    Keeps-bind _ _ (expire_stale_approvals-Sound os now) λ _.
      Keeps-bind _ _ (revoke_expired_secret_leases-Sound os now) λ _.
        Keeps-bind _ _ (timeout_overdue_runs-Sound os now) λ _.
          Keeps-bind _ _
            (retry_destroying_labs-Sound os describe now service.max_destroy_attempts
              service.storage_destroyer k)
            λ _. Keeps-bind _ _ (check_labs-Sound os now) λ _.
              Keeps-bind _ _ (check_inventory-Sound os now service.runtime_inventory)
                λ _. search keeps_rules
