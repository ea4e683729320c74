-- ===== src/Policy/Engine.antt =====
-- `PolicyEngine` of labos/core/policy_engine.py.
pub mod Requests
use Prim.Native.String.{◌++◌ as append, compare}
use package.text.Mathlib.Text.{is_lt, starts_with}
use labos.Prelude.{
  ℕ, String, Bool, true, false, not, ◌||◌, ◌&&◌, List, [], ◌∷◌, ◌++◌, Option, none, some,
}
use labos.Prelude.{Result, ok, err, and_then, reject_if, contains, ◌==◌, if◌then◌else◌, string_eq}
use labos.Core.Enums.{AuditLevel}
use labos.Policy.Models.{Profile, RuntimeClass, RiskClass, NetworkMode, FilesystemMode}
use labos.Policy.Models.{PersistenceMode, ExportMode, RequesterType, is_human, is_high_risk}
use labos.Policy.Models.{runtime_class_value, network_mode_value, filesystem_mode_value}
use labos.Policy.Models.{persistence_mode_value, export_mode_value}
use labos.Policy.Values.{
  Item, Value, Overrides, Expected, scalar, list, text, text_value, int_value,
}
use labos.Policy.Values.{lookup, truthy, equals}
use labos.Policy.HostMounts.{
  PolicyError, unknown_profile, invalid, type_error, validate_host_mounts,
}

abbrev pub Profiles : Type 0
Profiles = List (String × Profile)

pub record RequestDecision : Type 0 where
  pub profile_name : String
  pub runtime_class : RuntimeClass
  pub network_mode : NetworkMode
  pub filesystem_mode : FilesystemMode
  pub persistence_mode : PersistenceMode
  pub export_mode : ExportMode
  pub cpu_limit : ℕ
  pub memory_mb : ℕ
  pub disk_mb : ℕ
  pub max_runtime_minutes : ℕ
  pub approval_required : Bool
  pub approval_reasons : List String
  pub risk_class : RiskClass
  pub injected_secrets : List Item
  pub host_mounts_allowed : Bool
  pub audit_level : AuditLevel
  pub retention_days : ℕ

pub record ExportDecision : Type 0 where
  pub allowed : Bool
  pub approval_required : Bool
  pub quarantine_required : Bool
  pub reason : String

abbrev pub found_profile : String → Option Profile → Result PolicyError Profile
found_profile name none = err (unknown_profile (append "unknown profile: " name))
found_profile name (some p) = ok p

unfoldable pub get_profile : Profiles → String → Result PolicyError Profile
get_profile profiles name = found_profile name (lookup name profiles)

-- `RequesterType(requester_type)`
abbrev pub parse_requester : String → Result PolicyError RequesterType
parse_requester s =
    if s == "human"
    then ok RequesterType.human
    else if s == "agent"
    then ok RequesterType.agent
    else if s == "scheduler"
    then ok RequesterType.scheduler
    else err (invalid (append s " is not a valid RequesterType"))

abbrev locked_value : String → Option Value → Expected → Result PolicyError Unit
locked_value field none expected = ok tt
locked_value field (some v) expected =
    reject_if (not (equals v expected)) (invalid (append field " is fixed by profile"))

unfoldable pub enforce_profile_locked_field :
    String → Overrides → Expected → Result PolicyError Unit
enforce_profile_locked_field field overrides expected =
    locked_value field (lookup field overrides) expected

-- the nine calls of `_enforce_profile_locked_field`, in their order
abbrev pub locked_fields : Profile → List (String × Expected)
locked_fields p =
    ("network_mode", text_value (network_mode_value p.network_mode))
    ∷ ("runtime_class", text_value (runtime_class_value p.runtime_class))
    ∷ ("filesystem_mode", text_value (filesystem_mode_value p.filesystem_mode))
    ∷ ("persistence_mode", text_value (persistence_mode_value p.persistence_mode))
    ∷ ("export_mode", text_value (export_mode_value p.export_mode))
    ∷ ("cpu_limit", int_value p.cpu_limit)
    ∷ ("memory_mb", int_value p.memory_mb)
    ∷ ("disk_mb", int_value p.disk_mb)
    ∷ ("max_runtime_minutes", int_value p.max_runtime_minutes)
    ∷ []

unfoldable pub enforce_all : Overrides → List (String × Expected) → Result PolicyError Unit
enforce_all overrides [] = ok tt
enforce_all overrides ((field, expected) ∷ rest) =
    and_then (enforce_profile_locked_field field overrides expected) λ _. enforce_all overrides rest

-- `sorted(set(requested) - set(allowed))` over texts: insertion without repetition
unfoldable pub insert_name : String → List String → List String
insert_name s [] = s ∷ []
insert_name s (t ∷ ts) =
    let rest = insert_name s ts in
    if s == t then t ∷ ts else if is_lt (compare s t) then s ∷ t ∷ ts else t ∷ rest

-- What is requested beyond the allowed names. A list or dictionary among the requested secrets is
-- unhashable; an unknown one that is no text fails in `sorted` or in `join`.
unfoldable pub unknown_secrets : List String → List Item → Result PolicyError (List String)
unknown_secrets allowed [] = ok []
unknown_secrets allowed (text s ∷ rest) =
    let unknown = unknown_secrets allowed rest in
    and_then unknown λ names. ok (if contains allowed s then names else insert_name s names)
unknown_secrets allowed (_ ∷ rest) = err type_error

unfoldable pub join : List String → String
join [] = ""
join (s ∷ []) = s
join (s ∷ t ∷ rest) = append s (append ", " (join (t ∷ rest)))

abbrev pub reject_unknown : List String → Result PolicyError Unit
reject_unknown [] = ok tt
reject_unknown (s ∷ rest) =
    err (invalid (append "requested secrets are not allowed by profile: " (join (s ∷ rest))))

unfoldable pub check_secrets : List String → Option Value → Result PolicyError (List Item)
unfolding unknown_secrets
check_secrets allowed none = ok []
check_secrets allowed (some (list requested)) =
    and_then (unknown_secrets allowed requested)
      λ unknown. and_then (reject_unknown unknown) λ _. ok requested
check_secrets allowed (some (scalar v)) = err (invalid "requested secrets must be a list of names")

unfoldable pub approval_reasons : Profile → RequesterType → List String
approval_reasons p requester =
    (if p.approval_on_start then "profile requires start approval" ∷ [] else [])
    ++ (if not (is_human requester) && is_high_risk p.risk_class
        then "non-human requesters need approval for high-risk profiles" ∷ []
        else [])

abbrev pub is_nonempty {ℓ} : {A : Type ℓ} → List A → Bool
is_nonempty [] = false
is_nonempty (x ∷ xs) = true

unfoldable pub decide_request : Profile → List Item → List String → RequestDecision
decide_request p secrets reasons = record {
  profile_name = p.name;
  runtime_class = p.runtime_class;
  network_mode = p.network_mode;
  filesystem_mode = p.filesystem_mode;
  persistence_mode = p.persistence_mode;
  export_mode = p.export_mode;
  cpu_limit = p.cpu_limit;
  memory_mb = p.memory_mb;
  disk_mb = p.disk_mb;
  max_runtime_minutes = p.max_runtime_minutes;
  approval_required = is_nonempty reasons;
  approval_reasons = reasons;
  risk_class = p.risk_class;
  injected_secrets = secrets;
  host_mounts_allowed = p.allow_host_mounts;
  audit_level = p.audit_level;
  retention_days = p.retention_days;
}

abbrev pub or_else {ℓ} : {A : Type ℓ} → Option A → A → A
or_else none a = a
or_else (some b) a = b

abbrev pub is_truthy : Option Value → Bool
is_truthy none = false
is_truthy (some v) = truthy v

unfoldable pub validate_request :
    Profiles → String → Overrides → String → Result PolicyError RequestDecision
validate_request profiles profile_name overrides requester_type =
    and_then (get_profile profiles profile_name) λ p.
      and_then (parse_requester requester_type) λ requester.
        and_then
          (reject_if (is_truthy (lookup "inherit_host_env" overrides))
            (invalid "host environment inheritance is forbidden"))
          λ _.
            and_then
              (validate_host_mounts (or_else (lookup "host_mounts" overrides) (list []))
                p.allow_host_mounts)
              λ _. and_then (enforce_all overrides (locked_fields p)) λ _.
                and_then (check_secrets p.allowed_secret_names (lookup "secrets" overrides))
                  λ secrets. ok (decide_request p secrets (approval_reasons p requester))

-- `export_path.startswith(MANAGED_EXPORT_PREFIXES)`
abbrev pub in_managed_prefix : String → Bool
in_managed_prefix path = starts_with path "/lab/exports/" || starts_with path "/artifacts/approved/"

unfoldable pub decide_export : Profile → String → ExportDecision
decide_export p path =
    if in_managed_prefix path
    then record {
      allowed = true;
      approval_required = p.approval_on_export;
      quarantine_required = is_high_risk p.risk_class;
      reason = "managed export path accepted";
    }
    else record {
      allowed = false;
      approval_required = true;
      quarantine_required = true;
      reason = "exports must originate from managed LabOS paths";
    }

unfoldable pub validate_export : Profiles → String → String → Result PolicyError ExportDecision
unfolding decide_export
validate_export profiles profile_name path =
    and_then (get_profile profiles profile_name) λ p. ok (decide_export p path)
