-- ===== src/Api/Responses.antt =====
-- The response models of labos/core/models.py and the functions of labos/api/app.py that fill them
-- from rows. `updated_at` is left out, and a payload is held before it is written as JSON.
use labos.Prelude.{ℕ, String, Bool, Option, List, Result, ok, err}
use labos.Prelude.{◌==◌, if◌then◌else◌, string_eq}
use labos.Core.Enums.{ActorType, SchedulerAction, SchedulerJobState}
use labos.Core.Enums.{lab_state_value, run_state_value, approval_state_value, export_state_value}
use labos.Policy.Models.{runtime_class_value, persistence_mode_value}
use labos.Db.Rows.{
  FilePath, LabRow, LabStorageRow, RunRow, ApprovalRow, ExportRow, SecretLeaseRow, EventRow,
  SchedulerJobRow, Field,
}
use labos.Db.Session.{ApiError, fault}

pub record LabStorageResponse : Type 0 where
  pub persistence_mode : String
  pub root_path : FilePath
  pub workspace_path : FilePath
  pub exports_path : FilePath
  pub quarantine_path : FilePath
  pub snapshots_path : FilePath
  pub workspace_mount_target : String

pub record LabResponse : Type 0 where
  pub id : String
  pub profile_name : String
  pub state : String
  pub runtime_class : String
  pub storage : LabStorageResponse
  pub created_at : ℕ

unfoldable pub lab_response : LabRow → LabStorageRow → LabResponse
lab_response row storage = record {
  id = row.id;
  profile_name = row.profile_name;
  state = lab_state_value row.state;
  runtime_class = runtime_class_value row.runtime_class;
  storage = record {
    persistence_mode = persistence_mode_value storage.persistence_mode;
    root_path = storage.root_path;
    workspace_path = storage.workspace_path;
    exports_path = storage.exports_path;
    quarantine_path = storage.quarantine_path;
    snapshots_path = storage.snapshots_path;
    workspace_mount_target = storage.workspace_mount_target;
  };
  created_at = row.created_at;
}

pub record SecretLeaseResponse : Type 0 where
  pub id : String
  pub lab_id : String
  pub secret_name : String
  pub approved : Bool
  pub expires_at : ℕ
  pub revoked_at : Option ℕ
  pub created_at : ℕ

unfoldable pub secret_lease_response : SecretLeaseRow → SecretLeaseResponse
secret_lease_response row = record {
  id = row.id;
  lab_id = row.lab_id;
  secret_name = row.secret_name;
  approved = row.approved;
  expires_at = row.expires_at;
  revoked_at = row.revoked_at;
  created_at = row.created_at;
}

pub record RunResponse : Type 0 where
  pub id : String
  pub lab_id : String
  pub state : String
  pub command : String
  pub timeout_at : Option ℕ
  pub finished_at : Option ℕ
  pub created_at : ℕ

unfoldable pub run_response : RunRow → RunResponse
run_response row = record {
  id = row.id;
  lab_id = row.lab_id;
  state = run_state_value row.state;
  command = row.command;
  timeout_at = row.timeout_at;
  finished_at = row.finished_at;
  created_at = row.created_at;
}

pub record ApprovalResponse : Type 0 where
  pub id : String
  pub lab_id : Option String
  pub resource_type : String
  pub resource_id : String
  pub action : String
  pub reason : String
  pub requested_by : String
  pub state : String
  pub approved : Bool
  pub decision_comment : Option String
  pub decided_by : Option String
  pub expires_at : Option ℕ
  pub decided_at : Option ℕ
  pub created_at : ℕ

unfoldable pub approval_response : ApprovalRow → ApprovalResponse
approval_response row = record {
  id = row.id;
  lab_id = row.lab_id;
  resource_type = row.resource_type;
  resource_id = row.resource_id;
  action = row.action;
  reason = row.reason;
  requested_by = row.requested_by;
  state = approval_state_value row.state;
  approved = row.approved;
  decision_comment = row.decision_comment;
  decided_by = row.decided_by;
  expires_at = row.expires_at;
  decided_at = row.decided_at;
  created_at = row.created_at;
}

pub record ExportResponse : Type 0 where
  pub id : String
  pub lab_id : String
  pub run_id : Option String
  pub source_path : String
  pub state : String
  pub quarantine_path : FilePath
  pub released_path : Option FilePath
  pub approval_required : Bool
  pub sha256 : String
  pub size_bytes : ℕ
  pub denial_reason : Option String
  pub created_at : ℕ

unfoldable pub export_response : ExportRow → ExportResponse
export_response row = record {
  id = row.id;
  lab_id = row.lab_id;
  run_id = row.run_id;
  source_path = row.source_path;
  state = export_state_value row.state;
  quarantine_path = row.quarantine_path;
  released_path = row.released_path;
  approval_required = row.approval_required;
  sha256 = row.sha256;
  size_bytes = row.size_bytes;
  denial_reason = row.denial_reason;
  created_at = row.created_at;
}

-- `ActorType(text)`, which raises for other texts
unfoldable pub parse_actor : String → Result ApiError ActorType
parse_actor t =
    if t == "human"
    then ok ActorType.human
    else if t == "agent"
    then ok ActorType.agent
    else if t == "scheduler"
    then ok ActorType.scheduler
    else if t == "system"
    then ok ActorType.system
    else err (fault "ValueError")

pub record EventResponse : Type 0 where
  pub id : String
  pub lab_id : Option String
  pub run_id : Option String
  pub event_type : String
  pub actor_type : ActorType
  pub actor_id : Option String
  pub resource_type : Option String
  pub resource_id : Option String
  pub payload : List (String × Field)
  pub created_at : ℕ

abbrev pub with_actor : EventRow → ActorType → EventResponse
with_actor row actor = record {
  id = row.id;
  lab_id = row.lab_id;
  run_id = row.run_id;
  event_type = row.event_type;
  actor_type = actor;
  actor_id = row.actor_id;
  resource_type = row.resource_type;
  resource_id = row.resource_id;
  payload = row.payload;
  created_at = row.created_at;
}

pub record SchedulerJobResponse : Type 0 where
  pub id : String
  pub action : SchedulerAction
  pub state : SchedulerJobState
  pub requester_id : String
  pub profile_name : Option String
  pub lab_id : Option String
  pub command : Option String
  pub scheduled_for : ℕ
  pub attempt_count : ℕ
  pub max_attempts : ℕ
  pub last_error : Option String
  pub result_resource_type : Option String
  pub result_resource_id : Option String
  pub dispatched_at : Option ℕ
  pub completed_at : Option ℕ
  pub created_at : ℕ

unfoldable pub scheduler_job_response : SchedulerJobRow → SchedulerJobResponse
scheduler_job_response row = record {
  id = row.id;
  action = row.action;
  state = row.state;
  requester_id = row.requester_id;
  profile_name = row.profile_name;
  lab_id = row.lab_id;
  command = row.command;
  scheduled_for = row.scheduled_for;
  attempt_count = row.attempt_count;
  max_attempts = row.max_attempts;
  last_error = row.last_error;
  result_resource_type = row.result_resource_type;
  result_resource_id = row.result_resource_id;
  dispatched_at = row.dispatched_at;
  completed_at = row.completed_at;
  created_at = row.created_at;
}
