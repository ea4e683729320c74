-- ===== src/Security/SecretBroker.antt =====
-- labos/security/secret_broker.py. The broker is `EnvSecretBroker` with its default prefix.
pub mod Issuing
use Prim.Native.String.{◌++◌ as append}
use labos.Prelude.{ℕ, ◌+◌, String, Bool, true, not, ◌&&◌, Option, none, some, List, [], ◌∷◌}
use labos.Prelude.{
  Result, ok, err, and_then, reject_if, ltb, contains, is_none, keep, ◌==◌, string_eq,
}
use labos.Policy.Models.{Profile}
use labos.Policy.HostMounts.{PolicyError, unknown_profile, invalid, type_error}
use labos.Policy.Engine.{Profiles, get_profile}
use labos.Db.Rows.{Db, SecretLeaseRow, lab_key, lease_key}
use labos.Db.Table.{find, order_by, earlier}
use labos.Db.Changes.{add_lease}
use labos.Db.Platform.{Platform}
use labos.Db.Session.{Exec, pure, gets, modify, new_id, minutes, ◌>>=◌, ◌>>◌}

-- `LookupError`, `SecretNotFoundError`, `ValueError` and its subclass `SecretLeaseStateError`
pub data LeaseError : Type 0 where
  lookup_error : String → LeaseError
  secret_not_found : String → LeaseError
  value_error : String → LeaseError
  state_error : String → LeaseError

abbrev resolved : String → Option String → Result LeaseError String
resolved name none = err (LeaseError.secret_not_found name)
resolved name (some v) = ok v

unfoldable pub resolve : Platform → String → Result LeaseError String
resolve os secret_name = resolved secret_name (os.getenv (append "LABOS_SECRET_" secret_name))

abbrev pub require : {A : Type 0} → Option A → LeaseError → Result LeaseError A
require none e = err e
require (some a) e = ok a

-- a `KeyError` is a `LookupError`, and its `str` is the quoted message
abbrev lease_profile : Result PolicyError Profile → Result LeaseError Profile
lease_profile (ok p) = ok p
lease_profile (err (unknown_profile m)) = err (LeaseError.lookup_error (append "'" (append m "'")))
lease_profile (err (invalid m)) = err (LeaseError.value_error m)
lease_profile (err type_error) = err (LeaseError.value_error "TypeError")

abbrev pub new_lease : ℕ → ℕ → String → String → String → SecretLeaseRow
new_lease now ttl_minutes id lab_id secret_name = record {
  id = id;
  created_at = now;
  lab_id = lab_id;
  secret_name = secret_name;
  approved = true;
  expires_at = now + minutes ttl_minutes;
  revoked_at = none;
}

-- the checks of `issue_lease`
unfoldable pub check_issue : Platform → Profiles → Db → String → String → ℕ → Result LeaseError Unit
unfolding resolve
check_issue os profiles d lab_id secret_name ttl_minutes =
    and_then
      (reject_if (ltb ttl_minutes 1) (LeaseError.value_error "ttl_minutes must be at least 1"))
      λ _. and_then (require (find lab_id d.labs) (LeaseError.lookup_error "lab")) λ lab.
        and_then (lease_profile (get_profile profiles lab.profile_name)) λ profile.
          and_then
            (reject_if (not (contains profile.allowed_secret_names secret_name))
              (LeaseError.value_error "secret_name is not allowed by profile"))
            λ _. and_then (resolve os secret_name) λ _. ok tt

-- what follows the checks
unfoldable pub add_issued :
    (os : Platform)
    → ℕ
    → String
    → String
    → ℕ
    → Result LeaseError Unit
    → Exec os.Disk (Result LeaseError SecretLeaseRow)
add_issued os now lab_id secret_name ttl_minutes (err e) = pure (err e)
add_issued os now lab_id secret_name ttl_minutes (ok u) = do
  id ← new_id os
  modify (add_lease (new_lease now ttl_minutes id lab_id secret_name))
  pure (ok (new_lease now ttl_minutes id lab_id secret_name))

unfoldable pub issue_lease :
    (os : Platform)
    → Profiles
    → ℕ
    → String
    → String
    → ℕ
    → Exec os.Disk (Result LeaseError SecretLeaseRow)
issue_lease os profiles now lab_id secret_name ttl_minutes = do
  checked ← gets (λ d. check_issue os profiles d lab_id secret_name ttl_minutes)
  add_issued os now lab_id secret_name ttl_minutes checked

unfoldable pub revoke_found : ℕ → Option SecretLeaseRow → Result LeaseError SecretLeaseRow
revoke_found now found = and_then (require found (LeaseError.lookup_error "secret_lease")) λ lease.
    and_then
      (reject_if (not (is_none lease.revoked_at))
        (LeaseError.state_error "secret lease already revoked"))
      λ _. ok (record lease { revoked_at = some now })

-- `revoke_lease`; the revoked row
unfoldable pub revoke_lease : ℕ → Db → String → Result LeaseError SecretLeaseRow
unfolding revoke_found
revoke_lease now d lease_id = revoke_found now (find lease_id d.secret_leases)

abbrev pub lease_before : SecretLeaseRow → SecretLeaseRow → Bool
lease_before a b = earlier a.created_at a.id b.created_at b.id

-- `list_leases`
unfoldable pub list_leases : Db → String → List SecretLeaseRow
list_leases d lab_id = order_by lease_before (keep (λ r. r.lab_id == lab_id) d.secret_leases)

pub record SecretLease : Type 0 where
  pub name : String
  pub value : String
  pub approved : Bool
  pub expires_at : ℕ

-- the `where` clauses of `materialize_runtime_leases`
abbrev pub is_live : ℕ → String → SecretLeaseRow → Bool
is_live now lab_id row =
    row.lab_id == lab_id && row.approved && is_none row.revoked_at && ltb now row.expires_at

unfoldable pub materialize : Platform → List SecretLeaseRow → Result LeaseError (List SecretLease)
unfolding resolve
materialize os [] = ok []
materialize os (row ∷ rows) = and_then (resolve os row.secret_name) λ v.
    and_then (materialize os rows) λ rest. ok (
      record {
        name = row.secret_name;
        value = v;
        approved = row.approved;
        expires_at = row.expires_at;
      }
      ∷ rest)

unfoldable pub materialize_runtime_leases :
    Platform → ℕ → Db → String → Result LeaseError (List SecretLease)
unfolding materialize
materialize_runtime_leases os now d lab_id =
    materialize os (order_by lease_before (keep (is_live now lab_id) d.secret_leases))
