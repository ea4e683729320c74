-- ===== src/Core/Enums.antt =====
-- labos/core/enums.py. Each `value` function is the `.value` of the `StrEnum`.
use labos.Prelude.{ℕ, String, Eq, eq_by}

pub data LabState : Type 0 where
  requested pending_approval approved provisioning running : LabState
  stopped failed destroying destroyed archived : LabState

pub data RunState : Type 0 where
  queued starting running completed failed cancelled timed_out : RunState

pub data ApprovalState : Type 0 where
  requested approved rejected expired : ApprovalState

pub data ExportState : Type 0 where
  requested quarantined approved released rejected : ExportState

pub data SnapshotState : Type 0 where
  pending created failed restored : SnapshotState

pub data SchedulerAction : Type 0 where
  create_lab start_run : SchedulerAction

pub data SchedulerJobState : Type 0 where
  queued dispatched succeeded failed : SchedulerJobState

pub data ActorType : Type 0 where
  human agent scheduler system : ActorType

pub data AuditLevel : Type 0 where
  basic detailed forensic : AuditLevel

abbrev pub lab_code : LabState → ℕ
lab_code LabState.requested = 0
lab_code LabState.pending_approval = 1
lab_code LabState.approved = 2
lab_code LabState.provisioning = 3
lab_code LabState.running = 4
lab_code LabState.stopped = 5
lab_code LabState.failed = 6
lab_code LabState.destroying = 7
lab_code LabState.destroyed = 8
lab_code LabState.archived = 9

abbrev pub run_code : RunState → ℕ
run_code RunState.queued = 0
run_code RunState.starting = 1
run_code RunState.running = 2
run_code RunState.completed = 3
run_code RunState.failed = 4
run_code RunState.cancelled = 5
run_code RunState.timed_out = 6

abbrev pub approval_code : ApprovalState → ℕ
approval_code ApprovalState.requested = 0
approval_code ApprovalState.approved = 1
approval_code ApprovalState.rejected = 2
approval_code ApprovalState.expired = 3

abbrev pub export_code : ExportState → ℕ
export_code ExportState.requested = 0
export_code ExportState.quarantined = 1
export_code ExportState.approved = 2
export_code ExportState.released = 3
export_code ExportState.rejected = 4

abbrev pub snapshot_code : SnapshotState → ℕ
snapshot_code SnapshotState.pending = 0
snapshot_code SnapshotState.created = 1
snapshot_code SnapshotState.failed = 2
snapshot_code SnapshotState.restored = 3

abbrev pub job_code : SchedulerJobState → ℕ
job_code SchedulerJobState.queued = 0
job_code SchedulerJobState.dispatched = 1
job_code SchedulerJobState.succeeded = 2
job_code SchedulerJobState.failed = 3

instance abbrev pub lab_eq : Eq LabState
lab_eq = eq_by lab_code

instance abbrev pub run_eq : Eq RunState
run_eq = eq_by run_code

instance abbrev pub approval_eq : Eq ApprovalState
approval_eq = eq_by approval_code

instance abbrev pub export_eq : Eq ExportState
export_eq = eq_by export_code

instance abbrev pub snapshot_eq : Eq SnapshotState
snapshot_eq = eq_by snapshot_code

instance abbrev pub job_eq : Eq SchedulerJobState
job_eq = eq_by job_code

abbrev pub lab_state_value : LabState → String
lab_state_value LabState.requested = "requested"
lab_state_value LabState.pending_approval = "pending_approval"
lab_state_value LabState.approved = "approved"
lab_state_value LabState.provisioning = "provisioning"
lab_state_value LabState.running = "running"
lab_state_value LabState.stopped = "stopped"
lab_state_value LabState.failed = "failed"
lab_state_value LabState.destroying = "destroying"
lab_state_value LabState.destroyed = "destroyed"
lab_state_value LabState.archived = "archived"

abbrev pub run_state_value : RunState → String
run_state_value RunState.queued = "queued"
run_state_value RunState.starting = "starting"
run_state_value RunState.running = "running"
run_state_value RunState.completed = "completed"
run_state_value RunState.failed = "failed"
run_state_value RunState.cancelled = "cancelled"
run_state_value RunState.timed_out = "timed_out"

abbrev pub job_state_value : SchedulerJobState → String
job_state_value SchedulerJobState.queued = "queued"
job_state_value SchedulerJobState.dispatched = "dispatched"
job_state_value SchedulerJobState.succeeded = "succeeded"
job_state_value SchedulerJobState.failed = "failed"

abbrev pub scheduler_action_value : SchedulerAction → String
scheduler_action_value SchedulerAction.create_lab = "create_lab"
scheduler_action_value SchedulerAction.start_run = "start_run"

abbrev pub approval_state_value : ApprovalState → String
approval_state_value ApprovalState.requested = "requested"
approval_state_value ApprovalState.approved = "approved"
approval_state_value ApprovalState.rejected = "rejected"
approval_state_value ApprovalState.expired = "expired"

abbrev pub export_state_value : ExportState → String
export_state_value ExportState.requested = "requested"
export_state_value ExportState.quarantined = "quarantined"
export_state_value ExportState.approved = "approved"
export_state_value ExportState.released = "released"
export_state_value ExportState.rejected = "rejected"
