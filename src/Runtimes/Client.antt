-- ===== src/Runtimes/Client.antt =====
-- The docker client that `DockerRuntime` calls, with the state of the daemon behind it. A call may
-- raise, and may have changed the daemon when it does.
use labos.Prelude.{ℕ, String, Bool, Option, List, Result}
use labos.Db.Platform.{ℤ}
use labos.Runtimes.Act.{Act}

pub record Binding : Type 0 where
  pub bind : String
  pub mode : String

-- the arguments of `containers.create`
pub record ContainerConfig : Type 0 where
  pub image : String
  pub name : String
  pub command : Option (List String)
  pub detach : Bool
  pub labels : List (String × String)
  pub environment : List (String × String)
  pub volumes : List (String × Binding)
  pub network : Option String
  pub network_disabled : Bool
  pub nano_cpus : ℕ
  pub mem_limit : String
  pub read_only : Bool

pub record Client : Type 1 where
  pub Daemon : Type 0
  pub Network : Type 0
  pub Volume : Type 0
  pub Container : Type 0
  pub Bytes : Type 0
  -- `networks.create(name, internal, check_duplicate=True, labels)`, `networks.get`, `remove`
  pub create_network : String → Bool → List (String × String) → Act Daemon Network
  pub get_network : String → Act Daemon Network
  pub remove_network : Network → Act Daemon Unit
  -- `volumes.create(name, labels)`, `volumes.get`, `remove(force=True)`
  pub create_volume : String → List (String × String) → Act Daemon Volume
  pub get_volume : String → Act Daemon Volume
  pub remove_volume : Volume → Act Daemon Unit
  pub create_container : ContainerConfig → Act Daemon Container
  pub get_container : String → Act Daemon Container
  -- `containers.list(all=True, filters={"label": label})`
  pub list_containers : String → Act Daemon (List Container)
  pub start : Container → Act Daemon Unit
  pub stop : Container → ℕ → Act Daemon Unit
  -- `remove(force=True)`
  pub remove_container : Container → Act Daemon Unit
  -- the container with the attributes that it has now
  pub reload : Container → Act Daemon Container
  -- `int(result.exit_code)` and `result.output` of a run of a command
  pub exec_run : Container → String → Act Daemon (Result String ℤ × Bytes)
  pub logs : Container → String → Act Daemon Bytes
  pub decode : Bytes → Result String String
  -- attributes of a container, with `none` for a missing one; `State.Status` and `Mounts[i].Name`
  pub labels_of : Container → Option (List (String × String))
  pub name_of : Container → Option String
  pub status_of : Container → Option String
  pub state_status : Container → Option String
  pub mount_names : Container → List (Option String)
