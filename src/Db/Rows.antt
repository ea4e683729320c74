-- ===== src/Db/Rows.antt =====
-- labos/db/schema.py: a record for each table and the nine tables together. A date is the number
-- of an instant; `updated_at` is left out. State columns hold the enumeration's member.
use labos.Prelude.{ℕ, String, Bool, Option, List, []}
use labos.Core.Enums.{LabState, RunState, ApprovalState, ExportState, SchedulerAction}
use labos.Core.Enums.{SchedulerJobState}
use labos.Policy.Models.{RuntimeClass, PersistenceMode}

-- a path of the host: its components below the root
abbrev pub FilePath : Type 0
FilePath = List String

pub record LabRow : Type 0 where
  pub id : String
  pub created_at : ℕ
  pub profile_name : String
  pub state : LabState
  pub runtime_class : RuntimeClass
  pub destroy_attempts : ℕ
  pub last_destroy_error : Option String

pub record LabStorageRow : Type 0 where
  pub id : String
  pub created_at : ℕ
  pub lab_id : String
  pub persistence_mode : PersistenceMode
  pub root_path : FilePath
  pub workspace_path : FilePath
  pub exports_path : FilePath
  pub quarantine_path : FilePath
  pub snapshots_path : FilePath
  pub workspace_mount_target : String

pub record RunRow : Type 0 where
  pub id : String
  pub created_at : ℕ
  pub lab_id : String
  pub state : RunState
  pub command : String
  pub timeout_at : Option ℕ
  pub finished_at : Option ℕ

pub record ApprovalRow : Type 0 where
  pub id : String
  pub created_at : ℕ
  pub lab_id : Option String
  pub resource_type : String
  pub resource_id : String
  pub action : String
  pub reason : String
  pub requested_by : String
  pub state : ApprovalState
  pub approved : Bool
  pub decision_comment : Option String
  pub decided_by : Option String
  pub expires_at : Option ℕ
  pub decided_at : Option ℕ

pub record ExportRow : Type 0 where
  pub id : String
  pub created_at : ℕ
  pub lab_id : String
  pub run_id : Option String
  pub source_path : String
  pub state : ExportState
  pub quarantine_path : FilePath
  pub released_path : Option FilePath
  pub approval_required : Bool
  pub sha256 : String
  pub size_bytes : ℕ
  pub denial_reason : Option String

pub record SnapshotRow : Type 0 where
  pub id : String
  pub created_at : ℕ
  pub lab_id : String
  pub backend_ref : FilePath

pub record SecretLeaseRow : Type 0 where
  pub id : String
  pub created_at : ℕ
  pub lab_id : String
  pub secret_name : String
  pub approved : Bool
  pub expires_at : ℕ
  pub revoked_at : Option ℕ

-- A value of an event's payload, before `json.dumps`.
pub data Field : Type 0 where
  null : Field
  text : String → Field
  number : ℕ → Field
  boolean : Bool → Field
  instant : ℕ → Field
  path : FilePath → Field

pub record EventRow : Type 0 where
  pub id : String
  pub created_at : ℕ
  pub lab_id : Option String
  pub run_id : Option String
  pub event_type : String
  pub actor_type : String
  pub actor_id : Option String
  pub resource_type : Option String
  pub resource_id : Option String
  pub payload : List (String × Field)

pub record SchedulerJobRow : Type 0 where
  pub id : String
  pub created_at : ℕ
  pub action : SchedulerAction
  pub state : SchedulerJobState
  pub requester_id : String
  pub profile_name : Option String
  pub lab_id : Option String
  pub command : Option String
  pub scheduled_for : ℕ
  pub attempt_count : ℕ
  pub max_attempts : ℕ
  pub last_error : Option String
  pub result_resource_type : Option String
  pub result_resource_id : Option String
  pub dispatched_at : Option ℕ
  pub completed_at : Option ℕ

pub record Db : Type 0 where
  pub labs : List LabRow
  pub lab_storage : List LabStorageRow
  pub runs : List RunRow
  pub approvals : List ApprovalRow
  pub exports : List ExportRow
  pub snapshots : List SnapshotRow
  pub secret_leases : List SecretLeaseRow
  pub events : List EventRow
  pub scheduler_jobs : List SchedulerJobRow

abbrev pub empty_db : Db
empty_db = record {
  labs = [];
  lab_storage = [];
  runs = [];
  approvals = [];
  exports = [];
  snapshots = [];
  secret_leases = [];
  events = [];
  scheduler_jobs = [];
}

-- the primary key of a table
pub record Keyed (R : Type 0) : Type 0 where
  pub key : R → String

instance abbrev pub lab_key : Keyed LabRow
lab_key = record { key = λ r. r.id }

instance abbrev pub run_key : Keyed RunRow
run_key = record { key = λ r. r.id }

instance abbrev pub approval_key : Keyed ApprovalRow
approval_key = record { key = λ r. r.id }

instance abbrev pub export_key : Keyed ExportRow
export_key = record { key = λ r. r.id }

instance abbrev pub snapshot_key : Keyed SnapshotRow
snapshot_key = record { key = λ r. r.id }

instance abbrev pub lease_key : Keyed SecretLeaseRow
lease_key = record { key = λ r. r.id }

instance abbrev pub job_key : Keyed SchedulerJobRow
job_key = record { key = λ r. r.id }
