-- ===== src/Tests/Runtimes.antt =====
-- Labs created over a docker that takes containers, and over one that refuses them.
use mathlib.Core.Path.{subst}
use labos.Prelude.{◌∙◌}
use labos.Prelude.{
  String, Bool, true, false, ◌≡◌, refl, sym, ap, none, List, [], ◌∷◌, Result, ok, err, ok-injective,
}
use labos.Policy.Models.{NetworkMode, PersistenceMode}
use labos.Db.Platform.{ℤ}
use labos.Runtimes.Base.{RuntimeSpec, is_active}
use labos.Runtimes.Client.{ContainerConfig, Client}
use labos.Prelude.{◌↔◌, All}
use labos.Runtimes.Docker.Confined.{Usable}
use labos.Runtimes.Docker.Environment.{build_environment_iff}
use labos.Runtimes.Act.{Act, ◌>>=◌, each}
use labos.Runtimes.Docker.{
  create_lab, settle_lab, build_lab, build_environment, add_leases, provisioned, network_for,
  roll_back,
}
use labos.Runtimes.Docker.Inventory.{Inventory}
use labos.Runtimes.Docker.Creating.{Added, RolledBack, create_lab-Added, create_lab-RolledBack}

-- the containers and the networks
abbrev Shelf : Type 0
Shelf = List ContainerConfig × List String

abbrev put : Bool → ContainerConfig → Act Shelf Unit
put true config d = (ok tt, (config ∷ d.0, d.1))
put false config d = (err "name is in use", d)

abbrev drop_first : List String → List String
drop_first [] = []
drop_first (n ∷ rest) = rest

abbrev dock : Bool → Client
dock takes = record {
  Daemon = Shelf;
  Network = String;
  Volume = Unit;
  Container = Unit;
  Bytes = Unit;
  create_network = λ name internal labels d. (ok name, (d.0, name ∷ d.1));
  get_network = λ name d. (ok name, d);
  remove_network = λ network d. (ok tt, (d.0, drop_first d.1));
  create_volume = λ name labels d. (ok tt, d);
  get_volume = λ name d. (ok tt, d);
  remove_volume = λ volume d. (ok tt, d);
  create_container = put takes;
  get_container = λ name d. (ok tt, d);
  list_containers = λ label d. (ok [], d);
  start = λ container d. (ok tt, d);
  stop = λ container timeout d. (ok tt, d);
  remove_container = λ container d. (ok tt, d);
  reload = λ container d. (ok tt, d);
  exec_run = λ container command d. (ok (ok (ℤ.pos 0), tt), d);
  logs = λ container tail d. (ok tt, d);
  decode = λ bytes. ok "";
  labels_of = λ container. none;
  name_of = λ container. none;
  status_of = λ container. none;
  state_status = λ container. none;
  mount_names = λ container. [];
}

put-ok :
    (takes : Bool) (config : ContainerConfig) (d d' : Shelf) (c : Unit)
    → put takes config d ≡ (ok c, d')
    → d'.0 ≡ config ∷ d.0
put-ok true config d d' c h = ap (λ x. x.1.0) (sym h)
put-ok false config d d' c h = absurd (cc)

put-err :
    (takes : Bool) (config : ContainerConfig) (d d' : Shelf) (e : String)
    → put takes config d ≡ (err e, d')
    → d'.0 ≡ d.0
put-err true config d d' e h = absurd (cc)
put-err false config d d' e h = ap (λ x. x.1.0) (sym h)

put-networks :
    (takes : Bool) (config : ContainerConfig) (d : Shelf) → (put takes config d).1.1 ≡ d.1
put-networks true config d = refl
put-networks false config d = refl

clash : (n : String) (e : String) → ◌≡◌ {A = Result String String} (ok n) (err e) → ⊥
clash n e h = cc

not_raised : (e : String) → ◌≡◌ {A = Result String Unit} (ok tt) (err e) → ⊥
not_raised e h = cc

inventory : (takes : Bool) → Inventory (dock takes)
inventory takes = record {
  containers = λ d. d.0;
  networks = λ d. d.1;
  containers-create_network = λ name internal labels d. refl;
  containers-remove_network = λ network d. refl;
  containers-create_volume = λ name labels d. refl;
  containers-remove_volume = λ volume d. refl;
  networks-create_volume = λ name labels d. refl;
  networks-remove_volume = λ volume d. refl;
  networks-create_container = put-networks takes;
  create_container-ok = put-ok takes;
  create_container-err = put-err takes;
  create_network-ok = λ name internal labels d d' network h.
      subst (λ n. d'.1 ≡ n ∷ d.1) (ok-injective name network (ap (λ x. x.0) h))
        (ap (λ x. x.1.1) (sym h));
  create_network-err = λ name internal labels d d' e h. absurd (clash name e (ap (λ x. x.0) h));
  remove_network-ok = λ network others d d' there h. ap (λ x. x.1.1) (sym h) ∙ ap drop_first there;
  remove_network-err = λ network d d' e h. absurd (not_raised e (ap (λ x. x.0) h));
}

abbrev spec : RuntimeSpec
spec = record {
  image = "python";
  network_mode = NetworkMode.restricted;
  persistence_mode = PersistenceMode.ephemeral;
  cpu_limit = 2;
  memory_mb = 512;
  managed_mounts = record { source = "v"; target = "/workspace"; read_only = false } ∷ [];
  secret_leases = record { name = "TOKEN"; value = "x"; approved = true; expires_at = 5 } ∷ [];
  labels = [];
  command = none;
}

abbrev before : Shelf
before = ([], "bridge" ∷ [])

create_lab-Added_example :
    Added
      (dock true)
      (inventory true)
      3
      "a"
      spec
      before
      (create_lab (dock true) 3 "a" spec before).1
unfolding create_lab settle_lab build_lab build_environment add_leases is_active ◌>>=◌ network_for
    each
create_lab-Added_example =
    create_lab-Added (dock true) (inventory true) 3 "a" spec before _
      (provisioned (dock true) "a" spec) refl

create_lab-RolledBack_example :
    RolledBack (dock false) (inventory false) before (create_lab (dock false) 3 "a" spec before).1
unfolding create_lab settle_lab build_lab build_environment add_leases is_active ◌>>=◌ network_for
    each roll_back
create_lab-RolledBack_example =
    create_lab-RolledBack (dock false) (inventory false) 3 "a" spec before _ "name is in use" refl

build_environment_iff_example :
    ((environment : List (String × String)) × (build_environment 3 spec ≡ ok environment))
    ↔ All (Usable 3) spec.secret_leases
build_environment_iff_example = build_environment_iff 3 spec
