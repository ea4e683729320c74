-- ===== src/Api/Leases.antt =====
-- The secret lease endpoints of labos/api/app.py, with the bounds of `SecretLeaseCreateRequest`.
use Prim.Native.String.{◌++◌ as append}
use labos.Prelude.{ℕ, String, ◌||◌, ltb, Option, none, some, List, [], ◌∷◌, string_eq}
use labos.Prelude.{Result, ok, err}
use labos.Core.Events.{EventRecord, system_event, write}
use labos.Db.Rows.{SecretLeaseRow, Field, lease_key, text, boolean, instant, null}
use labos.Db.Changes.{save_lease}
use labos.Db.Platform.{Platform}
use labos.Db.Session.{ApiError, Exec, pure, gets, lift, modify, commit, raise_if, with_session}
use labos.Db.Session.{not_found, conflict, bad_request, unprocessable, ◌>>=◌, ◌>>◌}
use labos.Policy.Models.{RequesterType, requester_type_value}
use labos.Security.SecretBroker.{list_leases, LeaseError, issue_lease, revoke_lease}
use labos.Prelude.{map}
use labos.Api.Responses.{SecretLeaseResponse, secret_lease_response}
use labos.Api.App.{App, require_lab}

-- the `except` clauses around `issue_lease`, in their order
abbrev issue_failure : Result LeaseError SecretLeaseRow → Result ApiError SecretLeaseRow
issue_failure (ok row) = ok row
issue_failure (err (LeaseError.secret_not_found name)) =
    err (bad_request (append "secret value not found for " name))
issue_failure (err (LeaseError.lookup_error m)) = err (not_found m)
issue_failure (err (LeaseError.value_error m)) = err (bad_request m)
issue_failure (err (LeaseError.state_error m)) = err (bad_request m)

abbrev pub revoke_failure : Result LeaseError SecretLeaseRow → Result ApiError SecretLeaseRow
revoke_failure (ok row) = ok row
revoke_failure (err (LeaseError.secret_not_found name)) = err (not_found name)
revoke_failure (err (LeaseError.lookup_error m)) = err (not_found m)
revoke_failure (err (LeaseError.value_error m)) = err (ApiError.fault m)
revoke_failure (err (LeaseError.state_error m)) = err (conflict m "secret_lease")

abbrev lease_issued : RequesterType → SecretLeaseRow → EventRecord
lease_issued requester lease =
    record (system_event "secret_lease.issued" (
      ("secret_name", text lease.secret_name)
      ∷ ("approved", boolean lease.approved)
      ∷ ("expires_at", instant lease.expires_at)
      ∷ [])) {
        lab_id = some lease.lab_id;
        actor_type = requester_type_value requester;
        resource_type = some "secret_lease";
        resource_id = some lease.id;
      }

abbrev optional_text : Option String → Field
optional_text none = null
optional_text (some s) = text s

abbrev optional_instant : Option ℕ → Field
optional_instant none = null
optional_instant (some t) = instant t

abbrev lease_revoked : String → Option String → SecretLeaseRow → EventRecord
lease_revoked actor reason lease =
    record (system_event "secret_lease.revoked" (
      ("secret_name", text lease.secret_name)
      ∷ ("reason", optional_text reason)
      ∷ ("revoked_at", optional_instant lease.revoked_at)
      ∷ [])) {
        lab_id = some lease.lab_id;
        actor_type = "human";
        actor_id = some actor;
        resource_type = some "secret_lease";
        resource_id = some lease.id;
      }

module _ (os : Platform) (app : App) (now : ℕ) where
  unfoldable pub create_secret_lease :
      String → String → RequesterType → ℕ → Exec os.Disk SecretLeaseRow
  create_secret_lease lab_id secret_name requester ttl_minutes = with_session (do
    raise_if (ltb ttl_minutes 1 || ltb 1440 ttl_minutes) (unprocessable "ttl_minutes")
    issued ← issue_lease os app.profiles now lab_id secret_name ttl_minutes
    lease ← lift (issue_failure issued)
    write os now (lease_issued requester lease)
    commit
    pure lease)

  unfoldable pub list_secret_leases : String → Exec os.Disk (List SecretLeaseResponse)
  list_secret_leases lab_id = with_session (do
    lab ← require_lab lab_id
    rows ← gets (λ d. list_leases d lab_id)
    pure (map secret_lease_response rows))

  unfoldable pub revoke_secret_lease : String → String → Option String → Exec os.Disk SecretLeaseRow
  revoke_secret_lease lease_id actor reason = with_session (do
    revoked ← gets (λ d. revoke_lease now d lease_id)
    lease ← lift (revoke_failure revoked)
    modify (save_lease lease)
    write os now (lease_revoked actor reason lease)
    commit
    pure lease)
