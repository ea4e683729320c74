-- ===== src/Policy/Engine/Requests.antt =====
-- What a granted request and its decision promise (labos/core/policy_engine.py).
use labos.Prelude.{
  String, ◌≡◌, refl, true, false, not, ◌||◌, ◌&&◌, Option, none, some, List, [], ◌∷◌,
}
use labos.Prelude.{
  Result, ok, err, and_then, reject_if, and_then-ok, reject_if-ok, ok-injective, Result-cases, All,
  contains, arith,
}
use labos.Prelude.{inl, inr, string_eq, if◌then◌else◌}
use labos.Policy.Models.{Profile, RequesterType, is_human, is_high_risk}
use labos.Policy.Values.{Item, Value, Overrides, Expected, list, text, lookup, equals}
use labos.Policy.HostMounts.{PolicyError, validate_host_mounts}
use labos.Policy.Engine.{
  Profiles, RequestDecision, get_profile, parse_requester, enforce_profile_locked_field,
  enforce_all, locked_fields, unknown_secrets, insert_name, check_secrets, approval_reasons,
  decide_request, is_truthy, or_else, validate_request, reject_unknown, found_profile,
}

-- an override of a locked field is absent or equal to the profile's value
abbrev Agrees : Overrides → String × Expected → Type 0
Agrees overrides (field, expected) =
    (v : Value) → lookup field overrides ≡ some v → equals v expected ≡ true

-- a requested secret is a name that the profile allows
abbrev IsAllowed : List String → Item → Type 0
IsAllowed allowed item = (s : String) × (item ≡ text s) × (contains allowed s ≡ true)

enforce_all-Agrees :
    (overrides : Overrides) (fields : List (String × Expected)) (u : Unit)
    → enforce_all overrides fields ≡ ok u
    → All (Agrees overrides) fields
unfolding enforce_all enforce_profile_locked_field
enforce_all-Agrees overrides [] u h = tt
enforce_all-Agrees overrides ((field, expected) ∷ rest) u h =
    let (a, first, others) =
      and_then-ok (enforce_profile_locked_field field overrides expected)
        (λ _. enforce_all overrides rest) h in
    (agrees a first, enforce_all-Agrees overrides rest u others)
  where
    agrees :
        (a : Unit)
        → enforce_profile_locked_field field overrides expected ≡ ok a
        → Agrees overrides (field, expected)
    agrees a e v found = ground (arith, found)

insert_name-ne-nil : (s : String) (names : List String) → insert_name s names ≡ [] → ⊥
unfolding insert_name
insert_name-ne-nil s [] h = cc
insert_name-ne-nil s (t ∷ ts) h = ground arith

no_unknown :
    (allowed : List String) (s : String) (r : Result PolicyError (List String))
    → and_then r (λ names. ok (if contains allowed s then names else insert_name s names)) ≡ ok []
    → (contains allowed s ≡ true) × (r ≡ ok [])
no_unknown allowed s (err e) h = absurd (cc)
no_unknown allowed s (ok names) h = ground (arith, insert_name-ne-nil s names)

unknown_secrets-IsAllowed :
    (allowed : List String) (items : List Item)
    → unknown_secrets allowed items ≡ ok []
    → All (IsAllowed allowed) items
unfolding unknown_secrets
unknown_secrets-IsAllowed allowed [] h = tt
unknown_secrets-IsAllowed allowed (Item.text s ∷ rest) h =
    let (known, others) = no_unknown allowed s (unknown_secrets allowed rest) h in
    ((s, refl, known), unknown_secrets-IsAllowed allowed rest others)
unknown_secrets-IsAllowed allowed (Item.null ∷ rest) h = absurd (cc)
unknown_secrets-IsAllowed allowed (Item.boolean b ∷ rest) h = absurd (cc)
unknown_secrets-IsAllowed allowed (Item.int n ∷ rest) h = absurd (cc)
unknown_secrets-IsAllowed allowed (Item.negative n ∷ rest) h = absurd (cc)
unknown_secrets-IsAllowed allowed (Item.nested b ∷ rest) h = absurd (cc)

check_secrets-IsAllowed :
    (allowed : List String) (o : Option Value) (items : List Item)
    → check_secrets allowed o ≡ ok items
    → All (IsAllowed allowed) items
unfolding check_secrets
check_secrets-IsAllowed allowed none items h = rw (← ok-injective [] items h) tt
check_secrets-IsAllowed allowed (some (Value.list requested)) items h =
    elim (Result-cases (unknown_secrets allowed requested)) [
      | inl (names, e) ↦
          let (none_left, same) = granted names (rw e at h) in
          rw (← same) (unknown_secrets-IsAllowed allowed requested (rw none_left at e))
      | inr (x, e) ↦ absurd (cc)
    ]
  where
    granted :
        (names : List String)
        → and_then (reject_unknown names) (λ _. ok requested) ≡ ok items
        → (names ≡ []) × (requested ≡ items)
    granted [] k = (refl, ok-injective requested items k)
    granted (n ∷ ns) k = absurd (cc)
check_secrets-IsAllowed allowed (some (Value.scalar v)) items h = absurd (cc)

-- What a decision takes from its profile.
pub record Mirrors (p : Profile) (d : RequestDecision) : Type 0 where
  pub name : d.profile_name ≡ p.name
  pub runtime_class : d.runtime_class ≡ p.runtime_class
  pub network_mode : d.network_mode ≡ p.network_mode
  pub filesystem_mode : d.filesystem_mode ≡ p.filesystem_mode
  pub persistence_mode : d.persistence_mode ≡ p.persistence_mode
  pub export_mode : d.export_mode ≡ p.export_mode
  pub cpu_limit : d.cpu_limit ≡ p.cpu_limit
  pub memory_mb : d.memory_mb ≡ p.memory_mb
  pub disk_mb : d.disk_mb ≡ p.disk_mb
  pub max_runtime_minutes : d.max_runtime_minutes ≡ p.max_runtime_minutes
  pub risk_class : d.risk_class ≡ p.risk_class
  pub host_mounts : d.host_mounts_allowed ≡ p.allow_host_mounts
  pub retention_days : d.retention_days ≡ p.retention_days

pub record Granted (profiles : Profiles) (name : String) (overrides : Overrides)
    (requester : String) (d : RequestDecision) : Type 0 where
  pub profile : Profile
  pub kind : RequesterType
  pub known : lookup name profiles ≡ some profile
  pub requester_known : parse_requester requester ≡ ok kind
  pub mirrors : Mirrors profile d
  pub no_host_env : is_truthy (lookup "inherit_host_env" overrides) ≡ false
  pub mounts :
      validate_host_mounts
        (or_else (lookup "host_mounts" overrides) (list []))
        profile.allow_host_mounts
      ≡ ok tt
  pub locked : All (Agrees overrides) (locked_fields profile)
  pub secrets : All (IsAllowed profile.allowed_secret_names) d.injected_secrets
  pub approval :
      d.approval_required
      ≡ (profile.approval_on_start || not (is_human kind) && is_high_risk profile.risk_class)

approval_required-eq :
    (p : Profile) (secrets : List Item) (kind : RequesterType)
    → (decide_request p secrets (approval_reasons p kind)).approval_required
      ≡ (p.approval_on_start || not (is_human kind) && is_high_risk p.risk_class)
unfolding decide_request approval_reasons
approval_required-eq p secrets kind = ground arith

decide_request-Mirrors :
    (p : Profile) (secrets : List Item) (reasons : List String)
    → Mirrors p (decide_request p secrets reasons)
unfolding decide_request
decide_request-Mirrors p secrets reasons = ground arith

decide_request-IsAllowed :
    (p : Profile) (secrets : List Item) (reasons : List String)
    → All (IsAllowed p.allowed_secret_names) secrets
    → All (IsAllowed p.allowed_secret_names) (decide_request p secrets reasons).injected_secrets
unfolding decide_request
decide_request-IsAllowed p secrets reasons h = h

found-ok :
    (name : String) (o : Option Profile) (p : Profile) → found_profile name o ≡ ok p → o ≡ some p
found-ok name none p h = absurd (cc)
found-ok name (some q) p h = ground arith

-- A granted request names a known profile and a known requester type. Its decision mirrors the
-- profile's runtime class, modes, limits, risk class, host mounts and retention; the host
-- environment is not inherited; the host mounts were accepted for the profile; every locked field
-- that is overridden is overridden by the profile's own value; every injected secret is a name that
-- the profile allows; and approval is required exactly if the profile requires it on start, or the
-- requester is not human and the profile's risk is high or critical.
pub validate_request-Granted :
    (profiles : Profiles) (name : String) (overrides : Overrides) (requester : String)
    (d : RequestDecision)
    → validate_request profiles name overrides requester ≡ ok d
    → Granted profiles name overrides requester d
unfolding validate_request get_profile
validate_request-Granted profiles name overrides requester d h =
    let (p, hp, h1) = and_then-ok (get_profile profiles name) _ h in
    let (kind, hk, h2) = and_then-ok (parse_requester requester) _ h1 in
    let (u, hu, h3) = and_then-ok (reject_if _ _) _ h2 in
    let (v, hv, h4) = and_then-ok (validate_host_mounts _ p.allow_host_mounts) _ h3 in
    let (w, hw, h5) = and_then-ok (enforce_all overrides (locked_fields p)) _ h4 in
    let (items, hi, h6) = and_then-ok (check_secrets p.allowed_secret_names _) _ h5 in
    let e = ok-injective _ d h6 in
    record {
      profile = p;
      kind = kind;
      known = found-ok name _ p hp;
      requester_known = hk;
      mirrors = rw (← e) (decide_request-Mirrors p items (approval_reasons p kind));
      no_host_env = reject_if-ok _ _ u hu;
      mounts = hv;
      locked = enforce_all-Agrees overrides (locked_fields p) w hw;
      secrets = rw (← e) (
          decide_request-IsAllowed p items (approval_reasons p kind)
            (check_secrets-IsAllowed p.allowed_secret_names _ items hi));
      approval = rw (← e) (approval_required-eq p items kind);
    }
