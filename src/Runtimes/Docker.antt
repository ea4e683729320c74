-- ===== src/Runtimes/Docker.antt =====
-- `DockerRuntime` of labos/runtimes/docker_runtime.py, over a client and the time of the call.
pub mod Dicts
pub mod Confined
pub mod Inventory
pub mod Environment
pub mod Creating
pub mod Containers
use Prim.Native.String.{◌++◌ as append, compare}
use package.text.Mathlib.Text.{is_lt}
use labos.Prelude.{ℕ, ◌*◌, String, Bool, true, false, not, Option, none, some, List, [], ◌∷◌, ◌++◌}
use labos.Prelude.{map, ◌==◌, if◌then◌else◌, string_eq, Result, ok, err}
use labos.Policy.Models.{NetworkMode, PersistenceMode}
use labos.Policy.Values.{lookup}
use labos.Db.Table.{order_by}
use labos.Security.SecretBroker.{SecretLease}
use labos.Runtimes.Base.{
  ManagedMount, is_active, RuntimeSpec, ProvisionedLab, RunExecutionResult, LabInspection,
}
use labos.Runtimes.Act.{Act, pure, raise, lift, each, when, ignore, ◌>>=◌, ◌>>◌}
use labos.Runtimes.Client.{Binding, ContainerConfig, Client}
use labos.Runtimes.Docker.Dicts.{set_item, update}
use labos.Runtimes.Numerals.{decimal}

abbrev pub backend_name : String
backend_name = "docker"

abbrev pub container_name : String → String
container_name lab_id = append "labos-" lab_id

abbrev pub network_name : String → String
network_name lab_id = append "labos-net-" lab_id

unfoldable pub labels : String → List (String × String) → List (String × String)
labels lab_id extra =
    update
      (("labos.managed", "true") ∷ ("labos.lab_id", lab_id) ∷ ("labos.runtime", backend_name) ∷ [])
      extra

abbrev pub is_deny : NetworkMode → Bool
is_deny NetworkMode.deny = true
is_deny _ = false

abbrev is_restricted : NetworkMode → Bool
is_restricted NetworkMode.restricted = true
is_restricted _ = false

abbrev pub is_ephemeral : PersistenceMode → Bool
is_ephemeral PersistenceMode.ephemeral = true
is_ephemeral PersistenceMode.persistent = false

-- the loop of `_build_environment`
unfoldable pub add_leases :
    ℕ → List (String × String) → List SecretLease → Result String (List (String × String))
add_leases now environment [] = ok environment
add_leases now environment (lease ∷ rest) =
    let added = add_leases now (set_item lease.name lease.value environment) rest in
    if not lease.approved
    then err (append "secret lease " (append lease.name " is not approved"))
    else if not (is_active now lease)
    then err (append "secret lease " (append lease.name " has expired"))
    else added

unfoldable pub build_environment : ℕ → RuntimeSpec → Result String (List (String × String))
build_environment now spec = add_leases now [] spec.secret_leases

abbrev binding : ManagedMount → Binding
binding m = record { bind = m.target; mode = if m.read_only then "ro" else "rw" }

unfoldable pub build_volumes : List ManagedMount → List (String × Binding)
build_volumes mounts = update [] (map (λ m. (m.source, binding m)) mounts)

-- the name of the lab's network, if it has one
unfoldable pub network_for : String → NetworkMode → Option String
network_for lab_id mode = if is_deny mode then none else some (network_name lab_id)

-- the arguments of `containers.create`
unfoldable pub container_config : String → RuntimeSpec → List (String × String) → ContainerConfig
container_config lab_id spec environment = record {
  image = spec.image;
  name = container_name lab_id;
  command = spec.command;
  detach = true;
  labels = labels lab_id spec.labels;
  environment = environment;
  volumes = build_volumes spec.managed_mounts;
  network = network_for lab_id spec.network_mode;
  network_disabled = is_deny spec.network_mode;
  nano_cpus = spec.cpu_limit * 1000000000;
  mem_limit = append (decimal spec.memory_mb) "m";
  read_only = is_ephemeral spec.persistence_mode;
}

module _ (client : Client) where
  -- the daemon, and what `create_lab` has created so far
  pub record Scene : Type 0 where
    pub daemon : client.Daemon
    pub created_network : Option client.Network
    pub created_volumes : List client.Volume

  unfoldable pub noted_network :
      Scene → Result String client.Network × client.Daemon → Result String Unit × Scene
  noted_network s (ok network, d) = (ok tt, record s { daemon = d; created_network = some network })
  noted_network s (err e, d) = (err e, record s { daemon = d })

  unfoldable pub add_network : String → RuntimeSpec → Option String → Act Scene Unit
  unfolding noted_network
  add_network lab_id spec none s = (ok tt, s)
  add_network lab_id spec (some name) s = noted_network s (
      client.create_network name (is_restricted spec.network_mode) (labels lab_id spec.labels)
        s.daemon)

  unfoldable pub noted_volume :
      Scene → Result String client.Volume × client.Daemon → Result String Unit × Scene
  noted_volume s (ok volume, d) =
      (ok tt, record s { daemon = d; created_volumes = s.created_volumes ++ volume ∷ [] })
  noted_volume s (err e, d) = (err e, record s { daemon = d })

  -- one round of the loop over the mounts, with `_ensure_volume`
  unfoldable pub add_volume : String → RuntimeSpec → ManagedMount → Act Scene Unit
  unfolding noted_volume
  add_volume lab_id spec mount s =
      noted_volume s (client.create_volume mount.source (labels lab_id spec.labels) s.daemon)

  unfoldable pub noted_container :
      Scene → Result String client.Container × client.Daemon → Result String Unit × Scene
  noted_container s (ok container, d) = (ok tt, record s { daemon = d })
  noted_container s (err e, d) = (err e, record s { daemon = d })

  unfoldable pub add_container : ContainerConfig → Act Scene Unit
  unfolding noted_container
  add_container config s = noted_container s (client.create_container config s.daemon)

  -- the body of the `try`
  unfoldable pub build_lab : ℕ → String → RuntimeSpec → Act Scene Unit
  unfolding add_network add_volume add_container
  build_lab now lab_id spec = do
    add_network lab_id spec (network_for lab_id spec.network_mode)
    each (add_volume lab_id spec) spec.managed_mounts
    environment ← lift (build_environment now spec)
    add_container (container_config lab_id spec environment)

  unfoldable pub remove_created : Option client.Network → Act client.Daemon Unit
  remove_created none = pure tt
  remove_created (some network) = client.remove_network network

  -- the body of the `except`
  unfoldable pub roll_back : Scene → String → Act client.Daemon ProvisionedLab
  unfolding remove_created
  roll_back s e = do
    remove_created s.created_network
    each client.remove_volume s.created_volumes
    raise e

  abbrev pub provisioned : String → RuntimeSpec → ProvisionedLab
  provisioned lab_id spec = record {
    lab_id = lab_id;
    backend = backend_name;
    container_name = container_name lab_id;
    network_name = network_for lab_id spec.network_mode;
    volume_names = map (λ m. m.source) spec.managed_mounts;
  }

  unfoldable pub settle_lab :
      String
      → RuntimeSpec
      → Result String Unit × Scene
      → Result String ProvisionedLab × client.Daemon
  settle_lab lab_id spec (ok _, s) = (ok (provisioned lab_id spec), s.daemon)
  settle_lab lab_id spec (err e, s) = roll_back s e s.daemon

  abbrev pub scene : client.Daemon → Scene
  scene d = record { daemon = d; created_network = none; created_volumes = [] }

  unfoldable pub create_lab : ℕ → String → RuntimeSpec → Act client.Daemon ProvisionedLab
  unfolding settle_lab build_lab roll_back
  create_lab now lab_id spec d = settle_lab lab_id spec (build_lab now lab_id spec (scene d))
