-- ===== src/Db/Changes.antt =====
-- What requests do to the database: a row is added to its table, or a changed row is written back.
use labos.Prelude.{[], ◌∷◌, ◌++◌}
use labos.Db.Rows.{
  Db, LabRow, LabStorageRow, RunRow, ApprovalRow, ExportRow, SecretLeaseRow, EventRow, SnapshotRow,
  SchedulerJobRow, lab_key, run_key, approval_key, export_key, lease_key, job_key,
}
use labos.Db.Table.{save}

unfoldable pub add_event : EventRow → Db → Db
add_event row d = record d { events = d.events ++ row ∷ [] }

unfoldable pub add_storage : LabStorageRow → Db → Db
add_storage row d = record d { lab_storage = d.lab_storage ++ row ∷ [] }

unfoldable pub add_lab : LabRow → Db → Db
add_lab row d = record d { labs = d.labs ++ row ∷ [] }

unfoldable pub save_lab : LabRow → Db → Db
save_lab row d = record d { labs = save row d.labs }

unfoldable pub add_run : RunRow → Db → Db
add_run row d = record d { runs = d.runs ++ row ∷ [] }

unfoldable pub save_run : RunRow → Db → Db
save_run row d = record d { runs = save row d.runs }

unfoldable pub add_approval : ApprovalRow → Db → Db
add_approval row d = record d { approvals = d.approvals ++ row ∷ [] }

unfoldable pub save_approval : ApprovalRow → Db → Db
save_approval row d = record d { approvals = save row d.approvals }

unfoldable pub add_export : ExportRow → Db → Db
add_export row d = record d { exports = d.exports ++ row ∷ [] }

unfoldable pub save_export : ExportRow → Db → Db
save_export row d = record d { exports = save row d.exports }

unfoldable pub add_lease : SecretLeaseRow → Db → Db
add_lease row d = record d { secret_leases = d.secret_leases ++ row ∷ [] }

unfoldable pub save_lease : SecretLeaseRow → Db → Db
save_lease row d = record d { secret_leases = save row d.secret_leases }

unfoldable pub add_snapshot : SnapshotRow → Db → Db
add_snapshot row d = record d { snapshots = d.snapshots ++ row ∷ [] }

unfoldable pub add_job : SchedulerJobRow → Db → Db
add_job row d = record d { scheduler_jobs = d.scheduler_jobs ++ row ∷ [] }

unfoldable pub save_job : SchedulerJobRow → Db → Db
save_job row d = record d { scheduler_jobs = save row d.scheduler_jobs }
