-- ===== src/Core/Entities.antt =====
-- labos/core/entities.py: records whose immutable fields an update may not change.
pub mod Updates
use labos.Prelude.{ℕ, String, Bool, Option, none, some, List, [], ◌∷◌, ◌++◌}
use labos.Core.Enums.{
  LabState, RunState, ApprovalState, ExportState, SnapshotState, AuditLevel, ActorType,
}

-- the value of an immutable field
pub data Attribute : Type 0 where
  name : String → Attribute
  time : ℕ → Attribute

pub record EntityRecord : Type 0 where
  pub id : String
  pub created_at : ℕ
  pub updated_at : ℕ

pub record ProfileRecord : Type 0 where
  pub entity : EntityRecord
  pub name : String
  pub runtime_class : String
  pub network_mode : String
  pub filesystem_mode : String
  pub persistence_mode : String
  pub export_mode : String
  pub approval_required : Bool
  pub audit_level : AuditLevel

pub record LabRecord : Type 0 where
  pub entity : EntityRecord
  pub profile_name : String
  pub state : LabState

pub record RunRecord : Type 0 where
  pub entity : EntityRecord
  pub lab_id : String
  pub state : RunState

pub record ApprovalRequestRecord : Type 0 where
  pub entity : EntityRecord
  pub lab_id : String
  pub requester : String
  pub state : ApprovalState
  pub reason : String

pub record SnapshotRecord : Type 0 where
  pub entity : EntityRecord
  pub lab_id : String
  pub state : SnapshotState
  pub storage_uri : Option String

pub record ExportRequestRecord : Type 0 where
  pub entity : EntityRecord
  pub lab_id : String
  pub artifact_path : String
  pub state : ExportState
  pub checksum_sha256 : Option String

pub record AuditEventRecord : Type 0 where
  pub entity : EntityRecord
  pub lab_id : Option String
  pub run_id : Option String
  pub actor : String
  pub action : String
  pub detail : String

pub record SecretLeaseRecord : Type 0 where
  pub entity : EntityRecord
  pub lab_id : String
  pub secret_name : String
  pub expires_at : ℕ

pub record SchedulerJobRecord : Type 0 where
  pub entity : EntityRecord
  pub profile_name : String
  pub cron : String
  pub enabled : Bool

-- a class of entities: `immutable_fields`, and `getattr` of each of these
pub record Entity (A : Type 0) : Type 0 where
  pub immutable_fields : List String
  pub attributes : A → List (String × Attribute)

abbrev base_fields : List String
base_fields = "id" ∷ "created_at" ∷ []

abbrev base_attributes : EntityRecord → List (String × Attribute)
base_attributes e = ("id", name e.id) ∷ ("created_at", time e.created_at) ∷ []

-- `EntityRecord.immutable_fields | frozenset({...})`
abbrev extended :
    {A : Type 0} → (A → EntityRecord) → List String → (A → List (String × Attribute)) → Entity A
extended base more own = record {
  immutable_fields = base_fields ++ more;
  attributes = λ a. base_attributes (base a) ++ own a;
}

instance abbrev pub entity_fields : Entity EntityRecord
entity_fields = record { immutable_fields = base_fields; attributes = base_attributes }

instance abbrev pub profile_fields : Entity ProfileRecord
profile_fields = extended (λ p. p.entity) ("name" ∷ []) λ p. ("name", name p.name) ∷ []

instance abbrev pub lab_fields : Entity LabRecord
lab_fields =
    extended (λ l. l.entity) ("profile_name" ∷ []) λ l. ("profile_name", name l.profile_name) ∷ []

instance abbrev pub run_fields : Entity RunRecord
run_fields = extended (λ r. r.entity) ("lab_id" ∷ []) λ r. ("lab_id", name r.lab_id) ∷ []

instance abbrev pub approval_fields : Entity ApprovalRequestRecord
approval_fields =
    extended (λ a. a.entity) ("lab_id" ∷ "requester" ∷ "reason" ∷ [])
      λ a.
        ("lab_id", name a.lab_id) ∷ ("requester", name a.requester) ∷ ("reason", name a.reason) ∷ []

instance abbrev pub snapshot_fields : Entity SnapshotRecord
snapshot_fields = extended (λ s. s.entity) ("lab_id" ∷ []) λ s. ("lab_id", name s.lab_id) ∷ []

instance abbrev pub export_fields : Entity ExportRequestRecord
export_fields =
    extended (λ x. x.entity) ("lab_id" ∷ "artifact_path" ∷ [])
      λ x. ("lab_id", name x.lab_id) ∷ ("artifact_path", name x.artifact_path) ∷ []

instance abbrev pub event_fields : Entity AuditEventRecord
event_fields = extended (λ e. e.entity) [] λ e. []

instance abbrev pub lease_fields : Entity SecretLeaseRecord
lease_fields =
    extended (λ l. l.entity) ("lab_id" ∷ "secret_name" ∷ "expires_at" ∷ [])
      λ l.
        ("lab_id", name l.lab_id)
        ∷ ("secret_name", name l.secret_name)
        ∷ ("expires_at", time l.expires_at)
        ∷ []

instance abbrev pub job_fields : Entity SchedulerJobRecord
job_fields =
    extended (λ j. j.entity) ("profile_name" ∷ "cron" ∷ [])
      λ j. ("profile_name", name j.profile_name) ∷ ("cron", name j.cron) ∷ []
