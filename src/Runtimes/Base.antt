-- ===== src/Runtimes/Base.antt =====
-- labos/runtimes/base.py.
use labos.Prelude.{ℕ, String, Bool, Option, List, ltb}
use labos.Policy.Models.{NetworkMode, PersistenceMode}
use labos.Db.Platform.{ℤ}
use labos.Security.SecretBroker.{SecretLease}

pub record ManagedMount : Type 0 where
  pub source : String
  pub target : String
  pub read_only : Bool

-- `is_active(now)`
unfoldable pub is_active : ℕ → SecretLease → Bool
is_active now lease = ltb now lease.expires_at

pub record RuntimeSpec : Type 0 where
  pub image : String
  pub network_mode : NetworkMode
  pub persistence_mode : PersistenceMode
  pub cpu_limit : ℕ
  pub memory_mb : ℕ
  pub managed_mounts : List ManagedMount
  pub secret_leases : List SecretLease
  pub labels : List (String × String)
  pub command : Option (List String)

pub record ProvisionedLab : Type 0 where
  pub lab_id : String
  pub backend : String
  pub container_name : String
  pub network_name : Option String
  pub volume_names : List String

pub record RunExecutionResult : Type 0 where
  pub exit_code : ℤ
  pub stdout : String
  pub stderr : String

pub record LabInspection : Type 0 where
  pub lab_id : String
  pub backend : String
  pub container_name : String
  pub status : String
  pub labels : List (String × String)
