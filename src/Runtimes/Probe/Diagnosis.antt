-- ===== src/Runtimes/Probe/Diagnosis.antt =====
-- What the probe says of docker on the host.
use mathlib.Core.Path.{subst}
use labos.Prelude.{String, ◌≡◌, ◌↔◌, refl, sym, true, false, Option, none, some, List, is_none}
use labos.Prelude.{Bool-cases, ◌⊎◌, inl, inr, Result, ok, err, and_then-ok, ok-injective, string_eq}
use package.text.Mathlib.Text.{find?}
use labos.Runtimes.Probe.{
  ProbeHost, DockerAccessContext, DockerEnvironmentProbe, ready, classify_daemon_error, ping_probe,
  runtime_env, access_context, probe_with, probe_docker_environment,
}

module _ (host : ProbeHost) where
  -- A probe is ready exactly if it has the code for that, if it found the client on the path and
  -- the daemon answered; if the daemon did not, it tells why.
  pub record Diagnosed (p : DockerEnvironmentProbe) : Type 0 where
    pub found : p.cli_path ≡ host.which "docker"
    pub coded : (ready p ≡ true) ↔ (p.issue_code ≡ "ready")
    pub answered : (ready p ≡ true) ↔ ((is_none p.cli_path ≡ false) × (host.ping ≡ ok tt))
    pub told :
        (ready p ≡ true)
        ⊎ ((p.issue_code ≡ "cli_missing") × (p.cli_path ≡ none))
        ⊎ ((e : String) × (host.ping ≡ err e) × (p.daemon_error ≡ some e))

  classify_daemon_error-trouble :
      (e : String) → (classify_daemon_error host.lower e).0 ≡ "ready" → ⊥
  unfolding classify_daemon_error
  classify_daemon_error-trouble e h =
      elim (Bool-cases (is_none (find? (host.lower e) "permission denied"))) [
        | inl other ↦ (let h' = rw other at h in absurd (cc))
        | inr denied ↦ (let h' = rw denied at h in absurd (cc))
      ]

  ping_probe-Diagnosed :
      (access : DockerAccessContext) (path : String) (r : Result String Unit)
      → host.which "docker" ≡ some path
      → host.ping ≡ r
      → Diagnosed (ping_probe host access path r)
  unfolding ping_probe ready
  ping_probe-Diagnosed access path (ok tt) found answer = record {
    found = sym found;
    coded = (λ _. refl, λ _. refl);
    answered = (λ _. (refl, answer), λ _. refl);
    told = inl refl;
  }
  ping_probe-Diagnosed access path (err e) found answer = record {
    found = sym found;
    coded = (λ h. absurd (cc), λ h. absurd (classify_daemon_error-trouble e h));
    answered = (λ h. absurd (cc), λ h. let h' = h.1 in absurd (cc));
    told = inr (inr (e, answer, refl));
  }

  probe_with-Diagnosed :
      (access : DockerAccessContext) (o : Option String)
      → host.which "docker" ≡ o
      → Diagnosed (probe_with host access o)
  unfolding probe_with ready
  probe_with-Diagnosed access none found = record {
    found = sym found;
    coded = (λ h. absurd (cc), λ h. absurd (cc));
    answered = (λ h. absurd (cc), λ h. let h' = h.0 in absurd (cc));
    told = inr (inl (refl, refl));
  }
  probe_with-Diagnosed access (some path) found =
      ping_probe-Diagnosed access path host.ping found refl

  -- A probe is ready exactly if its issue is called ready, and exactly if docker's client is on the
  -- path, which is the path that it tells, and the daemon answered; otherwise it tells that the
  -- client is missing, or with which error the daemon did not answer.
  pub probe_docker_environment-Diagnosed :
      (env : List (String × String)) (p : DockerEnvironmentProbe)
      → probe_docker_environment host env ≡ ok p
      → Diagnosed p
  unfolding probe_docker_environment
  probe_docker_environment-Diagnosed env p h =
      let (access, e, h') = and_then-ok (access_context host (runtime_env host env)) _ h in
      subst Diagnosed (ok-injective _ p h') (probe_with-Diagnosed access (host.which "docker") refl)
