-- ===== src/Runtimes/Docker/Confined.antt =====
-- What the container of a lab may see: `container_config` and `_build_environment` of
-- labos/runtimes/docker_runtime.py.
use mathlib.Core.List.{Mem, mem-cons_self, mem-cons_of_mem}
use mathlib.Core.Path.{subst}
use Prim.Native.String.{◌++◌ as append}
use labos.Prelude.{ℕ, String, ◌≡◌, refl, Bool-cases, inl, inr, true, none, List, [], ◌∷◌}
use labos.Prelude.{◌≢◌, ◌⊎◌, ok-injective, All, ok, ◌==◌, string_eq, eq_iff}
use labos.Policy.Models.{NetworkMode, PersistenceMode}
use labos.Security.SecretBroker.{SecretLease}
use labos.Runtimes.Base.{RuntimeSpec, is_active}
use labos.Runtimes.Client.{ContainerConfig}
use labos.Runtimes.Docker.{
  is_deny, is_ephemeral, network_for, add_leases, build_environment, container_config,
}
use labos.Runtimes.Docker.Dicts.{set_item}

module _ (now : ℕ) where
  pub record Usable (lease : SecretLease) : Type 0 where
    pub approved : lease.approved ≡ true
    pub active : is_active now lease ≡ true

  -- the variable is the secret of a usable lease
  pub record Granted (leases : List SecretLease) (variable : String × String) : Type 0 where
    pub lease : SecretLease
    pub requested : Mem lease leases
    pub usable : Usable lease
    pub named : lease.name ≡ variable.0
    pub valued : lease.value ≡ variable.1

  pub record Confined (lab_id : String) (spec : RuntimeSpec) (config : ContainerConfig)
      : Type 0 where
    pub name : config.name ≡ append "labos-" lab_id
    pub isolated :
        (spec.network_mode ≢ NetworkMode.deny)
        ⊎ ((config.network ≡ none) × (config.network_disabled ≡ true))
    pub root : (spec.persistence_mode ≢ PersistenceMode.ephemeral) ⊎ (config.read_only ≡ true)
    pub leases : All Usable spec.secret_leases
    pub environment : All (Granted spec.secret_leases) config.environment

  isolation :
      (lab_id : String) (mode : NetworkMode)
      → (mode ≢ NetworkMode.deny) ⊎ ((network_for lab_id mode ≡ none) × (is_deny mode ≡ true))
  unfolding network_for
  isolation lab_id NetworkMode.deny = inr (refl, refl)
  isolation lab_id NetworkMode.restricted = inl (λ h. cc)
  isolation lab_id NetworkMode.allowlist = inl (λ h. cc)

  read_only_root :
      (mode : PersistenceMode) → (mode ≢ PersistenceMode.ephemeral) ⊎ (is_ephemeral mode ≡ true)
  read_only_root PersistenceMode.ephemeral = inr refl
  read_only_root PersistenceMode.persistent = inl (λ h. cc)

  set_item-All :
      (P : String × String → Type 0) (key value : String) (entries : List (String × String))
      → P (key, value)
      → All P entries
      → All P (set_item key value entries)
  unfolding set_item
  set_item-All P key value [] here there = (here, tt)
  set_item-All P key value ((k, v) ∷ rest) here there = elim (Bool-cases (k == key)) [
    | inl same ↦ rw (same, (eq_iff k key).0 same) (here, there.1)
    | inr other ↦ rw other (there.0, set_item-All P key value rest here there.1)
  ]

  -- what the loop over the leases has gone through when it returns
  pub add_leases-Granted :
      (all leases : List SecretLease) (environment filled : List (String × String))
      → ((l : SecretLease) → Mem l leases → Mem l all)
      → All (Granted all) environment
      → add_leases now environment leases ≡ ok filled
      → All Usable leases × All (Granted all) filled
  unfolding add_leases is_active
  add_leases-Granted all [] environment filled within granted h =
      (tt, subst (All (Granted all)) (ok-injective environment filled h) granted)
  add_leases-Granted all (l ∷ rest) environment filled within granted h =
      elim (Bool-cases l.approved) [
        | inr refused ↦ (let h' = rw refused at h in absurd (cc))
        | inl approved ↦ elim (Bool-cases (is_active now l)) [
          | inr expired ↦ (let h' = rw (approved, expired) at h in absurd (cc))
          | inl active ↦
              let usable : Usable l = record { approved = approved; active = active } in
              let here : Granted all (l.name, l.value) = record {
                lease = l;
                requested = within l mem-cons_self;
                usable = usable;
                named = refl;
                valued = refl;
              } in
              let (others, entries) =
                add_leases-Granted all rest _ filled (λ x m. within x (mem-cons_of_mem l m))
                  (set_item-All (Granted all) l.name l.value environment here granted)
                  (rw (approved, active) at h) in
              ((usable, others), entries)
        ]
      ]

  pub container_config-Confined :
      (lab_id : String) (spec : RuntimeSpec) (environment : List (String × String))
      → build_environment now spec ≡ ok environment
      → Confined lab_id spec (container_config lab_id spec environment)
  unfolding container_config build_environment
  container_config-Confined lab_id spec environment h =
      let (leases, entries) =
        add_leases-Granted spec.secret_leases spec.secret_leases [] environment (λ l m. m) tt h in
      record {
        name = refl;
        isolated = isolation lab_id spec.network_mode;
        root = read_only_root spec.persistence_mode;
        leases = leases;
        environment = entries;
      }
