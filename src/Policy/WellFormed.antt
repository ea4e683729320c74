-- ===== src/Policy/WellFormed.antt =====
-- What the validation of a profile promises, and that the built-in profiles pass it.
use labos.Prelude.{◌≤◌, String, ◌≡◌, ◌↔◌, true, false, some, arith}
use labos.Prelude.{ok, []}
use labos.Policy.Models.{Profile, RuntimeClass, NetworkMode, ExportMode, is_high_risk}
use labos.Policy.Models.{is_low_risk, validate}
use labos.Policy.Profiles.{default_profiles}
use labos.Policy.Values.{lookup, lookup-All}

-- The rules that a profile has to meet.
pub record WellFormed (p : Profile) : Type 0 where
  pub cpu : 1 ≤ p.cpu_limit
  pub memory : 256 ≤ p.memory_mb
  pub disk : 1024 ≤ p.disk_mb
  pub runtime : 1 ≤ p.max_runtime_minutes
  pub retention : 1 ≤ p.retention_days
  pub microvm_network : p.runtime_class ≡ RuntimeClass.microvm → p.network_mode ≡ NetworkMode.deny
  pub microvm_export : p.runtime_class ≡ RuntimeClass.microvm → p.export_mode ≡ ExportMode.approval
  pub microvm_start : p.runtime_class ≡ RuntimeClass.microvm → p.approval_on_start ≡ true
  pub microvm_mounts : p.runtime_class ≡ RuntimeClass.microvm → p.allow_host_mounts ≡ false
  pub microvm_risk : p.runtime_class ≡ RuntimeClass.microvm → is_low_risk p.risk_class ≡ false
  pub high_risk_export : is_high_risk p.risk_class ≡ true → p.approval_on_export ≡ true

-- A profile passes its validation exactly when it meets all of the rules, and then it is returned
-- as it is.
pub validate_iff : (p : Profile) → (validate p ≡ ok p) ↔ WellFormed p
unfolding validate
validate_iff p = (λ h. ground arith, λ h. ground arith)

pub validate-ok : (p q : Profile) → validate p ≡ ok q → q ≡ p
unfolding validate
validate-ok p q h = ground arith

abbrev pub IsBuiltIn : String → Profile → Type 0
IsBuiltIn name p =
    WellFormed p × (p.name ≡ name) × (p.allow_host_mounts ≡ false) × (p.allowed_secret_names ≡ [])

-- Every built-in profile that a name looks up meets the rules and bears that name, allows no host
-- mounts and allows no secrets.
pub default_profiles-IsBuiltIn :
    (name : String) (p : Profile) → lookup name default_profiles ≡ some p → IsBuiltIn name p
default_profiles-IsBuiltIn name p h =
    lookup-All IsBuiltIn name default_profiles
      (ground arith, (ground arith, (ground arith, (ground arith, tt)))) h
