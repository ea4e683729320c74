-- ===== src/Policy/Models.antt =====
-- labos/core/policy_models.py. A `ValidationError` is its message.
use labos.Prelude.{ℕ, String, List, Bool, true, false, not, ◌&&◌, ltb}
use labos.Prelude.{Result, ok, and_then, reject_if}
use labos.Core.Enums.{AuditLevel}

pub data RuntimeClass : Type 0 where
  container microvm : RuntimeClass

pub data NetworkMode : Type 0 where
  deny restricted allowlist : NetworkMode

pub data FilesystemMode : Type 0 where
  managed read_only_root : FilesystemMode

pub data PersistenceMode : Type 0 where
  ephemeral persistent : PersistenceMode

pub data ExportMode : Type 0 where
  request approval : ExportMode

pub data RiskClass : Type 0 where
  low medium high critical : RiskClass

pub data RequesterType : Type 0 where
  human agent scheduler : RequesterType

abbrev pub runtime_class_value : RuntimeClass → String
runtime_class_value RuntimeClass.container = "container"
runtime_class_value RuntimeClass.microvm = "microvm"

abbrev pub network_mode_value : NetworkMode → String
network_mode_value NetworkMode.deny = "deny"
network_mode_value NetworkMode.restricted = "restricted"
network_mode_value NetworkMode.allowlist = "allowlist"

abbrev pub filesystem_mode_value : FilesystemMode → String
filesystem_mode_value FilesystemMode.managed = "managed"
filesystem_mode_value FilesystemMode.read_only_root = "read-only-root"

abbrev pub persistence_mode_value : PersistenceMode → String
persistence_mode_value PersistenceMode.ephemeral = "ephemeral"
persistence_mode_value PersistenceMode.persistent = "persistent"

abbrev pub export_mode_value : ExportMode → String
export_mode_value ExportMode.request = "request"
export_mode_value ExportMode.approval = "approval"

abbrev pub requester_type_value : RequesterType → String
requester_type_value RequesterType.human = "human"
requester_type_value RequesterType.agent = "agent"
requester_type_value RequesterType.scheduler = "scheduler"

abbrev pub is_microvm : RuntimeClass → Bool
is_microvm RuntimeClass.microvm = true
is_microvm RuntimeClass.container = false

abbrev pub is_deny : NetworkMode → Bool
is_deny NetworkMode.deny = true
is_deny _ = false

abbrev pub is_approval : ExportMode → Bool
is_approval ExportMode.approval = true
is_approval ExportMode.request = false

-- `risk_class in {RiskClass.HIGH, RiskClass.CRITICAL}`
abbrev pub is_high_risk : RiskClass → Bool
is_high_risk RiskClass.high = true
is_high_risk RiskClass.critical = true
is_high_risk _ = false

abbrev pub is_low_risk : RiskClass → Bool
is_low_risk RiskClass.low = true
is_low_risk _ = false

abbrev pub is_human : RequesterType → Bool
is_human RequesterType.human = true
is_human _ = false

abbrev pub is_ephemeral : PersistenceMode → Bool
is_ephemeral PersistenceMode.ephemeral = true
is_ephemeral PersistenceMode.persistent = false

pub record Profile : Type 0 where
  pub name : String
  pub runtime_class : RuntimeClass
  pub risk_class : RiskClass
  pub network_mode : NetworkMode
  pub filesystem_mode : FilesystemMode
  pub persistence_mode : PersistenceMode
  pub export_mode : ExportMode
  pub cpu_limit : ℕ
  pub memory_mb : ℕ
  pub disk_mb : ℕ
  pub max_runtime_minutes : ℕ
  pub approval_on_start : Bool
  pub approval_on_export : Bool
  pub audit_level : AuditLevel
  pub retention_days : ℕ
  pub allow_host_mounts : Bool
  pub allowed_secret_names : List String

-- the `Field(ge=...)` bounds
unfoldable pub validate_fields : Profile → Result String Unit
validate_fields p = and_then (reject_if (ltb p.cpu_limit 1) "cpu_limit") λ _.
    and_then (reject_if (ltb p.memory_mb 256) "memory_mb") λ _.
      and_then (reject_if (ltb p.disk_mb 1024) "disk_mb") λ _.
        and_then (reject_if (ltb p.max_runtime_minutes 1) "max_runtime_minutes")
          λ _. reject_if (ltb p.retention_days 1) "retention_days"

validate_microvm : Profile → Result String Unit
validate_microvm p =
    and_then (reject_if (not (is_deny p.network_mode)) "microVM profiles must deny network egress")
      λ _.
        and_then
          (reject_if (not (is_approval p.export_mode))
            "microVM profiles must require approval-based exports")
          λ _.
            and_then
              (reject_if (not p.approval_on_start)
                "microVM profiles must require approval on start")
              λ _. reject_if p.allow_host_mounts "microVM profiles cannot allow host mounts"

unfoldable pub validate_combinations : Profile → Result String Profile
unfolding validate_microvm
validate_combinations p =
    and_then (elim (is_microvm p.runtime_class) [ true ↦ validate_microvm p | false ↦ ok tt ])
      λ _.
        and_then
          (reject_if (is_high_risk p.risk_class && not p.approval_on_export)
            "high-risk profiles must require export approval")
          λ _.
            and_then
              (reject_if (is_low_risk p.risk_class && is_microvm p.runtime_class)
                "low-risk profiles cannot require a microVM runtime")
              λ _. ok p

-- building a `Profile`: the field bounds first, then the model validator
unfoldable pub validate : Profile → Result String Profile
unfolding validate_fields validate_combinations
validate p = and_then (validate_fields p) λ _. validate_combinations p
