-- ===== src/Security/SecretBroker/Issuing.antt =====
-- When a lease is issued (`issue_lease` of labos/security/secret_broker.py).
use Prim.Native.String.{◌++◌ as append}
use labos.Prelude.{ℕ, ◌≤◌, String, ◌≡◌, refl, Bool, true, false, not, Option, none, some, [], arith}
use mathlib.Core.Path.{subst}
use labos.Prelude.{◌+◌, ◌*◌, ap, Result, err, ok-injective}
use labos.Db.Session.{ApiError, World, pure, ◌>>=◌}
use labos.Prelude.{ok, reject_if, and_then-ok, reject_if-ok, ltb, contains, string_eq}
use labos.Policy.Models.{Profile}
use labos.Policy.Values.{lookup}
use labos.Policy.Profiles.{default_profiles}
use labos.Policy.Engine.{Profiles, get_profile, found_profile}
use labos.Policy.WellFormed.{default_profiles-IsBuiltIn}
use labos.Db.Rows.{Db, LabRow, SecretLeaseRow, lab_key}
use labos.Db.Table.{find}
use labos.Db.Platform.{Platform}
use labos.Security.SecretBroker.{
  LeaseError, require, lease_profile, resolved, resolve, check_issue, add_issued, issue_lease,
}

module _ (os : Platform) (profiles : Profiles) (d : Db) (lab_id name : String) (ttl : ℕ) where
  -- What has been checked of a lease that is issued.
  pub record Issuable : Type 0 where
    pub lab : LabRow
    pub profile : Profile
    pub value : String
    pub lasts : 1 ≤ ttl
    pub lab_known : find lab_id d.labs ≡ some lab
    pub profile_known : lookup lab.profile_name profiles ≡ some profile
    pub listed : contains profile.allowed_secret_names name ≡ true
    pub resolvable : os.getenv (append "LABOS_SECRET_" name) ≡ some value

  require-ok :
      {A : Type 0} (o : Option A) (e : LeaseError) (a : A) → require o e ≡ ok a → o ≡ some a
  require-ok none e a h = absurd (cc)
  require-ok (some b) e a h = cc

  resolved-ok : (o : Option String) (v : String) → resolved name o ≡ ok v → o ≡ some v
  resolved-ok none v h = absurd (cc)
  resolved-ok (some b) v h = cc

  lease_profile-ok :
      (profile_name : String) (o : Option Profile) (p : Profile)
      → lease_profile (found_profile profile_name o) ≡ ok p
      → o ≡ some p
  lease_profile-ok profile_name none p h = absurd (cc)
  lease_profile-ok profile_name (some q) p h = cc

  listed-true : (b : Bool) → not b ≡ false → b ≡ true
  listed-true true h = refl
  listed-true false h = absurd (cc)

  check_issue-Issuable : check_issue os profiles d lab_id name ttl ≡ ok tt → Issuable
  unfolding check_issue get_profile resolve
  check_issue-Issuable h =
      let (u, hu, h1) =
        and_then-ok
          (reject_if (ltb ttl 1) (LeaseError.value_error "ttl_minutes must be at least 1")) _ h in
      let (row, hr, h2) =
        and_then-ok (require (find lab_id d.labs) (LeaseError.lookup_error "lab")) _ h1 in
      let (p, hp, h3) = and_then-ok (lease_profile (get_profile profiles row.profile_name)) _ h2 in
      let (v, hv, h4) =
        and_then-ok
          (reject_if (not (contains p.allowed_secret_names name))
            (LeaseError.value_error "secret_name is not allowed by profile"))
          _ h3 in
      let (s, hs, h5) = and_then-ok (resolve os name) _ h4 in
      let long = reject_if-ok _ _ u hu in
      record {
        lab = row;
        profile = p;
        value = s;
        lasts = ground (arith, long);
        lab_known = require-ok _ _ row hr;
        profile_known = lease_profile-ok row.profile_name _ p hp;
        listed = listed-true _ (reject_if-ok _ _ v hv);
        resolvable = resolved-ok _ s hs;
      }

module _ (lab_id name : String) (ttl now : ℕ) where
  -- The row of a lease that was issued: for the lab, of the secret, for so many minutes.
  pub record IsLease (row : SecretLeaseRow) : Type 0 where
    pub for_lab : row.lab_id ≡ lab_id
    pub of_secret : row.secret_name ≡ name
    pub approved : row.approved ≡ true
    pub expires_at : row.expires_at ≡ now + ttl * 60000000
    pub revoked_at : row.revoked_at ≡ none

  add_issued-ok :
      (os : Platform) (checked : Result LeaseError Unit) (row : SecretLeaseRow)
      (w v : World os.Disk)
      → add_issued os now lab_id name ttl checked w ≡ (ok (ok row), v)
      → (checked ≡ ok tt) × IsLease row
  unfolding add_issued pure ◌>>=◌
  add_issued-ok os (err e) row w v h =
      let raised : ◌≡◌ {A = Result ApiError (Result LeaseError SecretLeaseRow)} (ok (err e))
          (ok (ok row)) =
        ap (λ p. p.0) h in
      absurd (cc)
  add_issued-ok os (ok tt) row w v h =
      let same = ok-injective _ row (ok-injective _ (ok row) (ap (λ p. p.0) h)) in
      (
        refl,
        subst IsLease same (record {
          for_lab = refl;
          of_secret = refl;
          approved = refl;
          expires_at = refl;
          revoked_at = refl;
        }),
      )

module _ (os : Platform) (profiles : Profiles) (now : ℕ) (lab_id name : String) (ttl : ℕ) where
  -- A lease is issued only to a lab that exists and whose profile is known, for a secret that the
  -- profile lists and that the environment has under its prefixed name, and for at least one minute;
  -- it is an approved lease of this secret for this lab, for so many minutes from now.
  pub issue_lease-Issuable :
      (row : SecretLeaseRow) (w v : World os.Disk)
      → issue_lease os profiles now lab_id name ttl w ≡ (ok (ok row), v)
      → Issuable os profiles w.db lab_id name ttl × IsLease lab_id name ttl now row
  unfolding issue_lease ◌>>=◌
  issue_lease-Issuable row w v h =
      let (checked, lease) = add_issued-ok lab_id name ttl now os _ row w v h in
      (check_issue-Issuable os profiles w.db lab_id name ttl checked, lease)

-- Under the built-in profiles no lease is ever issued, since none of them lists a secret.
pub issue_lease-never :
    (os : Platform) (now : ℕ) (lab_id name : String) (ttl : ℕ) (row : SecretLeaseRow)
    (w v : World os.Disk)
    → ¬ (issue_lease os default_profiles now lab_id name ttl w ≡ (ok (ok row), v))
issue_lease-never os now lab_id name ttl row w v h =
    let found = (issue_lease-Issuable os default_profiles now lab_id name ttl row w v h).0 in
    let built_in = default_profiles-IsBuiltIn _ found.profile found.profile_known in
    let unlisted : contains [] name ≡ true = rw built_in.3 at found.listed in absurd (cc)
