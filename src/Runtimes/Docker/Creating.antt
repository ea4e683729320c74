-- ===== src/Runtimes/Docker/Creating.antt =====
-- How `DockerRuntime.create_lab` leaves the daemon.
use mathlib.Core.Path.{subst}
use labos.Prelude.{◌⊎◌, inl, inr}
use labos.Prelude.{
  Bool, ℕ, String, ◌≡◌, refl, sym, ap, ◌∙◌, Option, none, some, List, ◌∷◌, Result, ok, err,
}
use labos.Runtimes.Act.{pure, raise, lift}
use labos.Runtimes.Act.Ends.{weaken-Ends, always-Ends, Ends, bind-Ends, each-Ends}
use labos.Runtimes.Base.{RuntimeSpec, ManagedMount, ProvisionedLab}
use labos.Runtimes.Client.{ContainerConfig, Client}
use labos.Runtimes.Docker.{
  build_environment, container_config, Scene, noted_network, add_network, noted_volume, add_volume,
  noted_container, add_container, build_lab, remove_created, roll_back, settle_lab, scene,
  create_lab, network_for,
}
use labos.Runtimes.Docker.Confined.{Confined, container_config-Confined}
use labos.Runtimes.Docker.Inventory.{Inventory}

module _ (client : Client) (inv : Inventory client) where
  -- the same containers and networks
  pub record Same (d d' : client.Daemon) : Type 0 where
    pub containers : inv.containers d' ≡ inv.containers d
    pub networks : inv.networks d' ≡ inv.networks d

  -- the removal of a network was refused, which is one more than there were
  pub record Refused (d d' : client.Daemon) : Type 0 where
    pub network : client.Network
    pub before : client.Daemon
    pub raised : String
    pub refused : client.remove_network network before ≡ (err raised, d')
    pub containers : inv.containers d' ≡ inv.containers d
    pub networks : inv.networks d' ≡ network ∷ inv.networks d

  abbrev pub RolledBack : client.Daemon → client.Daemon → Type 0
  RolledBack d d' = Same d d' ⊎ Refused d d'

  -- the networks, beside the one that was created
  abbrev Beside : Option client.Network → List client.Network → List client.Network → Type 0
  Beside none now before = now ≡ before
  Beside (some network) now before = now ≡ network ∷ before

  -- the daemon as it was, but for the network that was created
  record Begun (d : client.Daemon) (s : Scene client) : Type 0 where
    containers : inv.containers s.daemon ≡ inv.containers d
    networks : Beside s.created_network (inv.networks s.daemon) (inv.networks d)

  -- the daemon with one more container, as it should be
  pub record Added (now : ℕ) (lab_id : String) (spec : RuntimeSpec) (d d' : client.Daemon)
      : Type 0 where
    pub config : ContainerConfig
    pub added : inv.containers d' ≡ config ∷ inv.containers d
    pub confined : Confined now lab_id spec config

  module _ (d : client.Daemon) where
    noted_network-Begun :
        (s : Scene client) (x : Result String client.Network × client.Daemon)
        → inv.containers x.1 ≡ inv.containers d
        → Ends
            (λ n d'. inv.networks d' ≡ n ∷ inv.networks d)
            (λ d'. inv.networks d' ≡ inv.networks d)
            x
        → s.created_network ≡ none
        → Ends (λ _. Begun d) (Begun d) (noted_network client s x)
    unfolding noted_network Ends
    noted_network-Begun s (ok n, d') kept made e = record { containers = kept; networks = made }
    noted_network-Begun s (err _, d') kept made e = record {
      containers = kept;
      networks = rw e made;
    }

    beside :
        (o : Option client.Network) {ns ns' : List client.Network}
        → ns' ≡ ns
        → Beside o ns (inv.networks d)
        → Beside o ns' (inv.networks d)
    beside none e h = e ∙ h
    beside (some n) e h = e ∙ h

    noted_volume-Begun :
        (s : Scene client) (x : Result String client.Volume × client.Daemon)
        → Begun d s
        → Same s.daemon x.1
        → Ends (λ _. Begun d) (Begun d) (noted_volume client s x)
    unfolding noted_volume Ends
    noted_volume-Begun s (ok v, d') h k = record {
      containers = k.containers ∙ h.containers;
      networks = beside s.created_network k.networks h.networks;
    }
    noted_volume-Begun s (err _, d') h k = record {
      containers = k.containers ∙ h.containers;
      networks = beside s.created_network k.networks h.networks;
    }

    noted_container-Added :
        (now : ℕ) (lab_id : String) (spec : RuntimeSpec) (config : ContainerConfig)
        (s : Scene client) (x : Result String client.Container × client.Daemon)
        → client.create_container config s.daemon ≡ x
        → Confined now lab_id spec config
        → Begun d s
        → Ends (λ _ s'. Added now lab_id spec d s'.daemon) (Begun d) (noted_container client s x)
    unfolding noted_container Ends
    noted_container-Added now lab_id spec config s (ok c, d') made confined h = record {
      config = config;
      added =
          inv.create_container-ok config s.daemon d' c made ∙ ap (λ cs. config ∷ cs) h.containers;
      confined = confined;
    }
    noted_container-Added now lab_id spec config s (err e, d') made confined h = record {
      containers = inv.create_container-err config s.daemon d' e made ∙ h.containers;
      networks =
          beside s.created_network
            (ap (λ x. inv.networks x.1) (sym made) ∙ inv.networks-create_container config s.daemon)
            h.networks;
    }

    create_network-Ends :
        (name : String) (internal : Bool) (labels : List (String × String))
        (x : Result String client.Network × client.Daemon)
        → client.create_network name internal labels d ≡ x
        → Ends
            (λ n d'. inv.networks d' ≡ n ∷ inv.networks d)
            (λ d'. inv.networks d' ≡ inv.networks d)
            x
    unfolding Ends
    create_network-Ends name internal labels (ok n, d') made =
        inv.create_network-ok name internal labels d d' n made
    create_network-Ends name internal labels (err e, d') made =
        inv.create_network-err name internal labels d d' e made

    add_network-Begun :
        (lab_id : String) (spec : RuntimeSpec) (o : Option String)
        → Ends (λ _. Begun d) (Begun d) (add_network client lab_id spec o (scene client d))
    unfolding add_network Ends
    add_network-Begun lab_id spec none = record { containers = refl; networks = refl }
    add_network-Begun lab_id spec (some name) =
        noted_network-Begun (scene client d) _ (inv.containers-create_network name _ _ d)
          (create_network-Ends name _ _ _ refl) refl

    add_volume-Begun :
        (lab_id : String) (spec : RuntimeSpec) (mount : ManagedMount) (s : Scene client)
        → Begun d s
        → Ends (λ _. Begun d) (Begun d) (add_volume client lab_id spec mount s)
    unfolding add_volume
    add_volume-Begun lab_id spec mount s h = noted_volume-Begun s _ h (record {
      containers = inv.containers-create_volume mount.source _ s.daemon;
      networks = inv.networks-create_volume mount.source _ s.daemon;
    })

    lift-Begun :
        {A : Type 0} (r : Result String A) (s : Scene client)
        → Begun d s
        → Ends (λ a s'. (r ≡ ok a) × Begun d s') (Begun d) (lift r s)
    unfolding lift Ends
    lift-Begun (ok a) s h = (refl, h)
    lift-Begun (err e) s h = h

    build_lab-Added :
        (now : ℕ) (lab_id : String) (spec : RuntimeSpec)
        → Ends
            (λ _ s. Added now lab_id spec d s.daemon)
            (Begun d)
            (build_lab client now lab_id spec (scene client d))
    unfolding build_lab add_container
    build_lab-Added now lab_id spec =
        bind-Ends (λ _. Begun d) _ (Begun d) _ _ (scene client d)
          (add_network-Begun lab_id spec (network_for lab_id spec.network_mode))
          λ _ s1 h1.
            bind-Ends (λ _. Begun d) _ (Begun d) _ _ s1
              (each-Ends (Begun d) _ (add_volume-Begun lab_id spec) spec.managed_mounts s1 h1)
              λ _ s2 h2.
                bind-Ends (λ a s'. (build_environment now spec ≡ ok a) × Begun d s') _ (Begun d) _ _
                  s2 (lift-Begun (build_environment now spec) s2 h2)
                  λ environment s3 h3.
                    noted_container-Added now lab_id spec (container_config lab_id spec environment)
                      s3 _ refl (container_config-Confined now lab_id spec environment h3.0) h3.1

    remove_network-RolledBack :
        (n : client.Network) (d1 : client.Daemon) (x : Result String Unit × client.Daemon)
        → client.remove_network n d1 ≡ x
        → inv.containers d1 ≡ inv.containers d
        → inv.networks d1 ≡ n ∷ inv.networks d
        → Ends (λ _. Same d) (RolledBack d) x
    unfolding Ends
    remove_network-RolledBack n d1 (ok tt, d') removed kept before = record {
      containers =
          ap (λ x. inv.containers x.1) (sym removed) ∙ inv.containers-remove_network n d1 ∙ kept;
      networks = inv.remove_network-ok n (inv.networks d) d1 d' before removed;
    }
    remove_network-RolledBack n d1 (err e, d') refused kept before = inr (record {
      network = n;
      before = d1;
      raised = e;
      refused = refused;
      containers =
          ap (λ x. inv.containers x.1) (sym refused) ∙ inv.containers-remove_network n d1 ∙ kept;
      networks = inv.remove_network-err n d1 d' e refused ∙ before;
    })

    remove_created-RolledBack :
        (o : Option client.Network) (d' : client.Daemon)
        → inv.containers d' ≡ inv.containers d
        → Beside o (inv.networks d') (inv.networks d)
        → Ends (λ _. Same d) (RolledBack d) (remove_created client o d')
    unfolding remove_created pure Ends
    remove_created-RolledBack none d' kept before = record { containers = kept; networks = before }
    remove_created-RolledBack (some n) d' kept before =
        remove_network-RolledBack n d' _ refl kept before

    remove_volume-Same :
        (v : client.Volume) (d' : client.Daemon)
        → Same d d'
        → Ends (λ _. Same d) (Same d) (client.remove_volume v d')
    remove_volume-Same v d' h = always-Ends (Same d) _ (record {
      containers = inv.containers-remove_volume v d' ∙ h.containers;
      networks = inv.networks-remove_volume v d' ∙ h.networks;
    })

    roll_back-RolledBack :
        (P : ProvisionedLab → client.Daemon → Type 0) (s : Scene client) (e : String)
        → Begun d s
        → Ends P (RolledBack d) (roll_back client s e s.daemon)
    unfolding roll_back raise Ends
    roll_back-RolledBack P s e h =
        bind-Ends (λ _. Same d) _ (RolledBack d) (remove_created client s.created_network) _
          s.daemon (remove_created-RolledBack s.created_network s.daemon h.containers h.networks)
          λ _ s1 h1.
            bind-Ends (λ _. Same d) _ (RolledBack d) _ _ s1
              (weaken-Ends (λ _. Same d) (Same d) (RolledBack d) _
                (each-Ends (Same d) _ remove_volume-Same s.created_volumes s1 h1)
                (λ _ same. inl same))
              λ _ s2 h2. inl h2

    settle_lab-Added :
        (now : ℕ) (lab_id : String) (spec : RuntimeSpec) (x : Result String Unit × Scene client)
        → Ends (λ _ s. Added now lab_id spec d s.daemon) (Begun d) x
        → Ends (λ _. Added now lab_id spec d) (RolledBack d) (settle_lab client lab_id spec x)
    unfolding settle_lab Ends
    settle_lab-Added now lab_id spec (ok _, s) h = h
    settle_lab-Added now lab_id spec (err e, s) h =
        roll_back-RolledBack (λ _. Added now lab_id spec d) s e h

  create_lab-Ends :
      (now : ℕ) (lab_id : String) (spec : RuntimeSpec) (d : client.Daemon)
      → Ends (λ _. Added now lab_id spec d) (RolledBack d) (create_lab client now lab_id spec d)
  unfolding create_lab
  create_lab-Ends now lab_id spec d =
      settle_lab-Added d now lab_id spec _ (build_lab-Added d now lab_id spec)

  -- A lab that was created is one more container in the daemon, under the lab's name: its root is
  -- read-only if the lab is ephemeral, it has no network if the lab's mode denies one, each secret
  -- lease of the lab was approved and had not expired, and its environment holds nothing but the
  -- values of these leases under their names.
  pub create_lab-Added :
      (now : ℕ) (lab_id : String) (spec : RuntimeSpec) (d d' : client.Daemon) (lab : ProvisionedLab)
      → create_lab client now lab_id spec d ≡ (ok lab, d')
      → Added now lab_id spec d d'
  unfolding Ends
  create_lab-Added now lab_id spec d d' lab h =
      subst (Ends (λ _. Added now lab_id spec d) (RolledBack d)) h
        (create_lab-Ends now lab_id spec d)

  -- A lab that could not be created leaves the daemon with the containers that it had, and with the
  -- networks that it had, unless the daemon refused to remove the one network that was created,
  -- which is then there besides them.
  pub create_lab-RolledBack :
      (now : ℕ) (lab_id : String) (spec : RuntimeSpec) (d d' : client.Daemon) (e : String)
      → create_lab client now lab_id spec d ≡ (err e, d')
      → RolledBack d d'
  unfolding Ends
  create_lab-RolledBack now lab_id spec d d' e h =
      subst (Ends (λ _. Added now lab_id spec d) (RolledBack d)) h
        (create_lab-Ends now lab_id spec d)
