-- ===== src/System/Rules.antt =====
-- Each change to the database keeps `Sound`, given that the row that it writes is sound.
use labos.Prelude.{String, [], ◌∷◌, All-append}
use labos.Db.Rows.{
  Db, LabRow, LabStorageRow, RunRow, ApprovalRow, ExportRow, SecretLeaseRow, EventRow,
}
use labos.Db.Rows.{SchedulerJobRow, lab_key, run_key, approval_key, export_key, lease_key, job_key}
use labos.Db.Table.{find, All-find, All-save}
use labos.Db.Changes.{
  add_event, add_storage, add_lab, save_lab, add_run, save_run, add_approval, save_approval,
  add_export, save_export, add_lease, save_lease, add_job, save_job,
}
use labos.Db.Session.{Exec, modify, not_found, ◌>>=◌}
use labos.Db.Keeps.{Keeps, Keeps-modify, Keeps-bind-found, keeps_rules}
use labos.Api.App.{require_lab, require_storage, require_run, require_approval, require_export}
use labos.System.Sound.{Sound, LabSound, RunSound, ApprovalSound, ExportSound, LeaseSound, JobSound}

pub Sound-save_lab : (r : LabRow) (d : Db) → LabSound r → Sound d → Sound (save_lab r d)
unfolding save_lab
Sound-save_lab r d s h = record {
  labs = All-save LabSound r d.labs s h.labs;
  runs = h.runs;
  approvals = h.approvals;
  exports = h.exports;
  leases = h.leases;
  jobs = h.jobs;
}

pub Sound-save_export : (r : ExportRow) (d : Db) → ExportSound r → Sound d → Sound (save_export r d)
unfolding save_export
Sound-save_export r d s h = record {
  labs = h.labs;
  runs = h.runs;
  approvals = h.approvals;
  exports = All-save ExportSound r d.exports s h.exports;
  leases = h.leases;
  jobs = h.jobs;
}

module _ {D : Type 0} where
  pub add_event-Sound : (r : EventRow) → Keeps {D = D} Sound (modify (add_event r))
  unfolding add_event
  add_event-Sound r = Keeps-modify (add_event r) λ d h. record {
    labs = h.labs;
    runs = h.runs;
    approvals = h.approvals;
    exports = h.exports;
    leases = h.leases;
    jobs = h.jobs;
  }

  pub add_storage-Sound : (r : LabStorageRow) → Keeps {D = D} Sound (modify (add_storage r))
  unfolding add_storage
  add_storage-Sound r = Keeps-modify (add_storage r) λ d h. record {
    labs = h.labs;
    runs = h.runs;
    approvals = h.approvals;
    exports = h.exports;
    leases = h.leases;
    jobs = h.jobs;
  }

  pub add_lab-Sound : (r : LabRow) → LabSound r → Keeps {D = D} Sound (modify (add_lab r))
  unfolding add_lab
  add_lab-Sound r s = Keeps-modify (add_lab r) λ d h. record {
    labs = All-append LabSound d.labs (r ∷ []) h.labs (s, tt);
    runs = h.runs;
    approvals = h.approvals;
    exports = h.exports;
    leases = h.leases;
    jobs = h.jobs;
  }

  pub save_lab-Sound : (r : LabRow) → LabSound r → Keeps {D = D} Sound (modify (save_lab r))
  unfolding save_lab
  save_lab-Sound r s = Keeps-modify (save_lab r) λ d h. record {
    labs = All-save LabSound r d.labs s h.labs;
    runs = h.runs;
    approvals = h.approvals;
    exports = h.exports;
    leases = h.leases;
    jobs = h.jobs;
  }

  pub add_run-Sound : (r : RunRow) → RunSound r → Keeps {D = D} Sound (modify (add_run r))
  unfolding add_run
  add_run-Sound r s = Keeps-modify (add_run r) λ d h. record {
    labs = h.labs;
    runs = All-append RunSound d.runs (r ∷ []) h.runs (s, tt);
    approvals = h.approvals;
    exports = h.exports;
    leases = h.leases;
    jobs = h.jobs;
  }

  pub save_run-Sound : (r : RunRow) → RunSound r → Keeps {D = D} Sound (modify (save_run r))
  unfolding save_run
  save_run-Sound r s = Keeps-modify (save_run r) λ d h. record {
    labs = h.labs;
    runs = All-save RunSound r d.runs s h.runs;
    approvals = h.approvals;
    exports = h.exports;
    leases = h.leases;
    jobs = h.jobs;
  }

  pub add_approval-Sound :
      (r : ApprovalRow) → ApprovalSound r → Keeps {D = D} Sound (modify (add_approval r))
  unfolding add_approval
  add_approval-Sound r s = Keeps-modify (add_approval r) λ d h. record {
    labs = h.labs;
    runs = h.runs;
    approvals = All-append ApprovalSound d.approvals (r ∷ []) h.approvals (s, tt);
    exports = h.exports;
    leases = h.leases;
    jobs = h.jobs;
  }

  pub save_approval-Sound :
      (r : ApprovalRow) → ApprovalSound r → Keeps {D = D} Sound (modify (save_approval r))
  unfolding save_approval
  save_approval-Sound r s = Keeps-modify (save_approval r) λ d h. record {
    labs = h.labs;
    runs = h.runs;
    approvals = All-save ApprovalSound r d.approvals s h.approvals;
    exports = h.exports;
    leases = h.leases;
    jobs = h.jobs;
  }

  pub add_export-Sound :
      (r : ExportRow) → ExportSound r → Keeps {D = D} Sound (modify (add_export r))
  unfolding add_export
  add_export-Sound r s = Keeps-modify (add_export r) λ d h. record {
    labs = h.labs;
    runs = h.runs;
    approvals = h.approvals;
    exports = All-append ExportSound d.exports (r ∷ []) h.exports (s, tt);
    leases = h.leases;
    jobs = h.jobs;
  }

  pub save_export-Sound :
      (r : ExportRow) → ExportSound r → Keeps {D = D} Sound (modify (save_export r))
  unfolding save_export
  save_export-Sound r s = Keeps-modify (save_export r) λ d h. record {
    labs = h.labs;
    runs = h.runs;
    approvals = h.approvals;
    exports = All-save ExportSound r d.exports s h.exports;
    leases = h.leases;
    jobs = h.jobs;
  }

  pub add_lease-Sound :
      (r : SecretLeaseRow) → LeaseSound r → Keeps {D = D} Sound (modify (add_lease r))
  unfolding add_lease
  add_lease-Sound r s = Keeps-modify (add_lease r) λ d h. record {
    labs = h.labs;
    runs = h.runs;
    approvals = h.approvals;
    exports = h.exports;
    leases = All-append LeaseSound d.secret_leases (r ∷ []) h.leases (s, tt);
    jobs = h.jobs;
  }

  pub save_lease-Sound :
      (r : SecretLeaseRow) → LeaseSound r → Keeps {D = D} Sound (modify (save_lease r))
  unfolding save_lease
  save_lease-Sound r s = Keeps-modify (save_lease r) λ d h. record {
    labs = h.labs;
    runs = h.runs;
    approvals = h.approvals;
    exports = h.exports;
    leases = All-save LeaseSound r d.secret_leases s h.leases;
    jobs = h.jobs;
  }

  pub add_job-Sound : (r : SchedulerJobRow) → JobSound r → Keeps {D = D} Sound (modify (add_job r))
  unfolding add_job
  add_job-Sound r s = Keeps-modify (add_job r) λ d h. record {
    labs = h.labs;
    runs = h.runs;
    approvals = h.approvals;
    exports = h.exports;
    leases = h.leases;
    jobs = All-append JobSound d.scheduler_jobs (r ∷ []) h.jobs (s, tt);
  }

  pub save_job-Sound :
      (r : SchedulerJobRow) → JobSound r → Keeps {D = D} Sound (modify (save_job r))
  unfolding save_job
  save_job-Sound r s = Keeps-modify (save_job r) λ d h. record {
    labs = h.labs;
    runs = h.runs;
    approvals = h.approvals;
    exports = h.exports;
    leases = h.leases;
    jobs = All-save JobSound r d.scheduler_jobs s h.jobs;
  }

module _ {D B : Type 0} where
  pub require_run-Sound :
      (id : String) (f : RunRow → Exec D B)
      → ((r : RunRow) → RunSound r → Keeps Sound (f r))
      → Keeps Sound (require_run id >>= f)
  unfolding require_run
  require_run-Sound id f k =
      Keeps-bind-found RunSound (λ d. find id d.runs) (not_found "run") f
        (λ d h a found. All-find RunSound id d.runs h.runs found) k

  pub require_approval-Sound :
      (id : String) (f : ApprovalRow → Exec D B)
      → ((r : ApprovalRow) → ApprovalSound r → Keeps Sound (f r))
      → Keeps Sound (require_approval id >>= f)
  unfolding require_approval
  require_approval-Sound id f k =
      Keeps-bind-found ApprovalSound (λ d. find id d.approvals) (not_found "approval") f
        (λ d h a found. All-find ApprovalSound id d.approvals h.approvals found) k

  pub require_export-Sound :
      (id : String) (f : ExportRow → Exec D B)
      → ((r : ExportRow) → ExportSound r → Keeps Sound (f r))
      → Keeps Sound (require_export id >>= f)
  unfolding require_export
  require_export-Sound id f k =
      Keeps-bind-found ExportSound (λ d. find id d.exports) (not_found "export") f
        (λ d h a found. All-find ExportSound id d.exports h.exports found) k

  pub require_lab-Sound :
      (id : String) (f : LabRow → Exec D B)
      → ((r : LabRow) → LabSound r → Keeps Sound (f r))
      → Keeps Sound (require_lab id >>= f)
  unfolding require_lab
  require_lab-Sound id f k =
      Keeps-bind-found LabSound (λ d. find id d.labs) (not_found "lab") f
        (λ d h a found. All-find LabSound id d.labs h.labs found) k

pub require_storage-Sound : {D : Type 0} (id : String) → Keeps {D = D} Sound (require_storage id)
unfolding require_storage
require_storage-Sound id = search keeps_rules

pub ruleset sound_rules = (
  keeps_rules, add_event-Sound, add_storage-Sound, add_lab-Sound, save_lab-Sound, add_run-Sound,
  save_run-Sound, add_approval-Sound, save_approval-Sound, add_export-Sound, save_export-Sound,
  add_lease-Sound, save_lease-Sound, add_job-Sound, save_job-Sound, require_storage-Sound,
)
