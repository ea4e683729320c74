-- ===== src/Runtimes/Docker/Environment.antt =====
-- When `_build_environment` of labos/runtimes/docker_runtime.py refuses a lab's secret leases.
use labos.Prelude.{ℕ, String, ◌≡◌, ◌↔◌, refl, List, [], ◌∷◌, All, ok}
use labos.Security.SecretBroker.{SecretLease}
use labos.Runtimes.Base.{RuntimeSpec, is_active}
use labos.Runtimes.Docker.{add_leases, build_environment}
use labos.Runtimes.Docker.Dicts.{set_item}
use labos.Runtimes.Docker.Confined.{Usable, add_leases-Granted}

module _ (now : ℕ) where
  add_leases-ok :
      (leases : List SecretLease) (environment : List (String × String))
      → All (Usable now) leases
      → (filled : List (String × String)) × (add_leases now environment leases ≡ ok filled)
  unfolding add_leases is_active
  add_leases-ok [] environment h = (environment, refl)
  add_leases-ok (l ∷ rest) environment h =
      let (filled, e) = add_leases-ok rest (set_item l.name l.value environment) h.1 in
      (filled, rw (h.0.approved, h.0.active) e)

  -- The environment of a lab is built exactly if each of its secret leases was approved and has not
  -- expired.
  pub build_environment_iff :
      (spec : RuntimeSpec)
      → ((environment : List (String × String)) × (build_environment now spec ≡ ok environment))
        ↔ All (Usable now) spec.secret_leases
  unfolding build_environment
  build_environment_iff spec = (
    λ built.
        (add_leases-Granted now spec.secret_leases spec.secret_leases [] built.0 (λ l m. m) tt
          built.1).0,
    λ usable. add_leases-ok spec.secret_leases [] usable,
  )
