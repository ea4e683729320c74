-- ===== src/System/Handlers/Leases.antt =====
-- The secret lease endpoints keep `Sound`.
use labos.Prelude.{ℕ, ◌≡◌, refl, String, Bool, false, Option, none, some, arith, Result, ok, err}
use labos.Prelude.{ltb, ◌||◌}
use labos.Db.Rows.{Db, SecretLeaseRow, lease_key}
use labos.Db.Table.{find, All-find}
use labos.Db.Platform.{Platform}
use labos.Db.Keeps.{Keeps, Keeps-bind, Keeps-bind-gets, Keeps-bind-lift, Keeps-bind-raise_if}
use labos.Db.Keeps.{Keeps-with_session}
use labos.Policy.Models.{RequesterType}
use labos.Security.SecretBroker.{
  LeaseError, add_issued, issue_lease, revoke_found, revoke_lease, new_lease,
}
use labos.Api.App.{App}
use labos.Api.Leases.{create_secret_lease, list_secret_leases, revoke_secret_lease, revoke_failure}
use labos.System.Sound.{Sound, LeaseSound}
use labos.System.Rules.{sound_rules, require_lab-Sound}
use labos.System.Handlers.{write-Sound}

new_lease-Sound :
    (now ttl : ℕ) (id lab_id name : String)
    → ltb ttl 1 ≡ false
    → LeaseSound (new_lease now ttl id lab_id name)
new_lease-Sound now ttl id lab_id name h = ground arith

module _ (os : Platform) (app : App) (now : ℕ) where
  add_issued-Sound :
      (lab_id name : String) (ttl : ℕ) (r : Result LeaseError Unit)
      → ltb ttl 1 ≡ false
      → Keeps Sound (add_issued os now lab_id name ttl r)
  unfolding add_issued
  add_issued-Sound lab_id name ttl (err e) h = search sound_rules
  add_issued-Sound lab_id name ttl (ok u) h = search (sound_rules, new_lease-Sound) depth 10

  issue_lease-Sound :
      (lab_id name : String) (ttl : ℕ)
      → ltb ttl 1 ≡ false
      → Keeps Sound (issue_lease os app.profiles now lab_id name ttl)
  unfolding issue_lease
  issue_lease-Sound lab_id name ttl h = search (sound_rules, add_issued-Sound)

  first_false : (a b : Bool) → (a || b) ≡ false → a ≡ false
  first_false a b h = ground arith

  pub create_secret_lease-Sound :
      (lab_id name : String) (requester : RequesterType) (ttl : ℕ)
      → Keeps Sound (create_secret_lease os app now lab_id name requester ttl)
  unfolding create_secret_lease
  create_secret_lease-Sound lab_id name requester ttl = Keeps-with_session _ (
      Keeps-bind-raise_if _ _ _ λ h.
        let h' = first_false _ _ h in
        Keeps-bind _ _ (issue_lease-Sound lab_id name ttl h')
          λ issued. search (sound_rules, write-Sound) depth 10)

  pub list_secret_leases-Sound :
      (lab_id : String) → Keeps Sound (list_secret_leases os app now lab_id)
  unfolding list_secret_leases
  list_secret_leases-Sound lab_id =
      Keeps-with_session _ (require_lab-Sound lab_id _ λ lab _. search sound_rules)

  -- a revoked row keeps its dates
  abbrev RevokedSound : Result LeaseError SecretLeaseRow → Type 0
  RevokedSound r = (row : SecretLeaseRow) → revoke_failure r ≡ ok row → LeaseSound row

  revoke_found-Sound :
      (o : Option SecretLeaseRow)
      → ((l : SecretLeaseRow) → o ≡ some l → LeaseSound l)
      → RevokedSound (revoke_found now o)
  unfolding revoke_found
  revoke_found-Sound none s row r = absurd (cc)
  revoke_found-Sound (some l) s row r = let q = s l refl in ground arith

  revoke_lease-Sound : (id : String) (d : Db) → Sound d → RevokedSound (revoke_lease now d id)
  unfolding revoke_lease
  revoke_lease-Sound id d h =
      revoke_found-Sound (find id d.secret_leases)
        λ l found. All-find LeaseSound id d.secret_leases h.leases found

  pub revoke_secret_lease-Sound :
      (id actor : String) (reason : Option String)
      → Keeps Sound (revoke_secret_lease os app now id actor reason)
  unfolding revoke_secret_lease
  revoke_secret_lease-Sound id actor reason = Keeps-with_session _ (
      Keeps-bind-gets RevokedSound _ _ (revoke_lease-Sound id) λ revoked q.
        Keeps-bind-lift (revoke_failure revoked) _
          λ lease e. let s = q lease e in search (sound_rules, write-Sound) depth 10)
