-- ===== src/Core/StateMachine.antt =====
-- labos/core/state_machine.py: the transition tables, as the lists of their targets.
use labos.Prelude.{Bool, List, [], ◌∷◌, contains}
use labos.Core.Enums.{LabState, RunState, ApprovalState, ExportState, SnapshotState}
use labos.Core.Enums.{lab_eq, run_eq, approval_eq, export_eq, snapshot_eq}

abbrev pub lab_transitions : LabState → List LabState
lab_transitions LabState.requested =
    LabState.pending_approval ∷ LabState.approved ∷ LabState.failed ∷ []
lab_transitions LabState.pending_approval = LabState.approved ∷ LabState.failed ∷ []
lab_transitions LabState.approved =
    LabState.provisioning ∷ LabState.failed ∷ LabState.destroying ∷ []
lab_transitions LabState.provisioning =
    LabState.running ∷ LabState.failed ∷ LabState.destroying ∷ []
lab_transitions LabState.running = LabState.stopped ∷ LabState.failed ∷ LabState.destroying ∷ []
lab_transitions LabState.stopped = LabState.running ∷ LabState.destroying ∷ LabState.archived ∷ []
lab_transitions LabState.failed = LabState.destroying ∷ LabState.archived ∷ []
lab_transitions LabState.destroying = LabState.destroyed ∷ []
lab_transitions LabState.destroyed = []
lab_transitions LabState.archived = []

abbrev pub run_transitions : RunState → List RunState
run_transitions RunState.queued = RunState.starting ∷ RunState.cancelled ∷ []
run_transitions RunState.starting = RunState.running ∷ RunState.failed ∷ RunState.cancelled ∷ []
run_transitions RunState.running =
    RunState.completed ∷ RunState.failed ∷ RunState.cancelled ∷ RunState.timed_out ∷ []
run_transitions RunState.completed = []
run_transitions RunState.failed = []
run_transitions RunState.cancelled = []
run_transitions RunState.timed_out = []

abbrev pub approval_transitions : ApprovalState → List ApprovalState
approval_transitions ApprovalState.requested =
    ApprovalState.approved ∷ ApprovalState.rejected ∷ ApprovalState.expired ∷ []
approval_transitions ApprovalState.approved = []
approval_transitions ApprovalState.rejected = []
approval_transitions ApprovalState.expired = []

abbrev pub export_transitions : ExportState → List ExportState
export_transitions ExportState.requested = ExportState.quarantined ∷ ExportState.rejected ∷ []
export_transitions ExportState.quarantined = ExportState.approved ∷ ExportState.rejected ∷ []
export_transitions ExportState.approved = ExportState.released ∷ []
export_transitions ExportState.released = []
export_transitions ExportState.rejected = []

abbrev pub snapshot_transitions : SnapshotState → List SnapshotState
snapshot_transitions SnapshotState.pending = SnapshotState.created ∷ SnapshotState.failed ∷ []
snapshot_transitions SnapshotState.created = SnapshotState.restored ∷ []
snapshot_transitions SnapshotState.failed = []
snapshot_transitions SnapshotState.restored = []

unfoldable pub can_transition_lab : LabState → LabState → Bool
can_transition_lab current target = contains (lab_transitions current) target

unfoldable pub can_transition_run : RunState → RunState → Bool
can_transition_run current target = contains (run_transitions current) target

unfoldable pub can_transition_approval : ApprovalState → ApprovalState → Bool
can_transition_approval current target = contains (approval_transitions current) target

unfoldable pub can_transition_export : ExportState → ExportState → Bool
can_transition_export current target = contains (export_transitions current) target

unfoldable pub can_transition_snapshot : SnapshotState → SnapshotState → Bool
can_transition_snapshot current target = contains (snapshot_transitions current) target
