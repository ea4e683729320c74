-- ===== src/Runtimes/Probe.antt =====
-- labos/runtimes/docker_probe.py: whether docker can be used on this host, and what stands in the
-- way. `access` holds the nine fields that a probe copies from the access context. What the host and the client answer are parameters.
pub mod Diagnosis
pub mod Groups
use Prim.Native.String.{compare, slice, len}
use package.text.Mathlib.Text.{is_lt, starts_with, find?}
use labos.Prelude.{
  ℕ, ◌%◌, String, Bool, true, false, not, ◌&&◌, Option, none, some, List, [], ◌∷◌, is_none,
  contains,
}
use labos.Prelude.{Result, ok, err, and_then, ◌==◌, if◌then◌else◌, string_eq}
use Prim.Native.String.{◌++◌ as append}
use labos.Policy.Values.{lookup}
use labos.Runtimes.Numerals.{octal}

-- `getpass`, `grp`, `pwd`, `os`, `shutil.which`, the docker client, and `str.lower`; what may raise
-- does so with a text. `environ` is `os.environ`.
pub record ProbeHost : Type 0 where
  pub getuser : Result String String
  pub getgroups : List ℕ
  pub group_name : ℕ → Result String String
  pub user_name : ℕ → Result String String
  pub exists : String → Bool
  -- the owner, the group and the mode
  pub stat : String → Result String (ℕ × ℕ × ℕ)
  pub which : String → Option String
  -- `factory()` and `client.ping()`
  pub ping : Result String Unit
  pub lower : String → String
  pub environ : List (String × String)

pub record DockerAccessContext : Type 0 where
  pub current_user : Option String
  pub user_groups : List String
  pub daemon_target : String
  pub socket_path : Option String
  pub socket_exists : Option Bool
  pub socket_owner : Option String
  pub socket_group : Option String
  pub socket_mode : Option String
  pub user_in_socket_group : Option Bool

pub record DockerEnvironmentProbe : Type 0 where
  pub cli_present : Bool
  pub cli_path : Option String
  pub daemon_reachable : Bool
  pub daemon_error : Option String
  pub detail : String
  pub issue_code : String
  pub remediation : String
  pub access : DockerAccessContext

unfoldable pub ready : DockerEnvironmentProbe → Bool
ready p = p.cli_present && p.daemon_reachable

-- the name of a trouble, and what helps
unfoldable pub classify_daemon_error : (String → String) → String → String × String
classify_daemon_error lower error =
    if is_none (find? (lower error) "permission denied")
    then ("daemon_unreachable", "start a reachable Docker daemon or point the client at one")
    else (
      "daemon_permission_denied",
      append "run on a host/user that can access the Docker daemon "
          "(for example via docker group membership or a rootless Docker context)",
    )

abbrev or_default : String → Option String → String
or_default fallback none = fallback
or_default fallback (some s) = s

unfoldable pub docker_target : List (String × String) → String
docker_target env = or_default "unix:///var/run/docker.sock" (lookup "DOCKER_HOST" env)

unfoldable pub socket_path_from_target : String → Option String
socket_path_from_target target =
    if starts_with target "unix://" then some (slice target 7 (len target)) else none

-- `sorted({...})`
unfoldable pub add_name : String → List String → List String
add_name name [] = name ∷ []
add_name name (other ∷ rest) =
    let others = add_name name rest in
    if name == other
    then other ∷ rest
    else if is_lt (compare name other)
    then name ∷ other ∷ rest
    else other ∷ others

module _ (host : ProbeHost) where
  unfoldable pub group_names : List ℕ → Result String (List String)
  group_names [] = ok []
  group_names (id ∷ rest) =
      and_then (host.group_name id)
        λ name. and_then (group_names rest) λ names. ok (add_name name names)

  -- what is known without a socket
  abbrev no_socket :
      String → List String → String → Option String → Option Bool → DockerAccessContext
  no_socket user groups target path present = record {
    current_user = some user;
    user_groups = groups;
    daemon_target = target;
    socket_path = path;
    socket_exists = present;
    socket_owner = none;
    socket_group = none;
    socket_mode = none;
    user_in_socket_group = none;
  }

  unfoldable pub socket_context :
      String → List String → String → String → Result String DockerAccessContext
  socket_context user groups target path = and_then (host.stat path) λ (uid, gid, mode).
      and_then (host.user_name uid) λ owner. and_then (host.group_name gid) λ group. ok (record {
        current_user = some user;
        user_groups = groups;
        daemon_target = target;
        socket_path = some path;
        socket_exists = some true;
        socket_owner = some owner;
        socket_group = some group;
        socket_mode = some (octal (mode % 4096));
        user_in_socket_group = some (contains groups group);
      })

  unfoldable pub context_of :
      String → List String → String → Option String → Result String DockerAccessContext
  unfolding socket_context
  context_of user groups target none = ok (no_socket user groups target none none)
  context_of user groups target (some path) =
      if host.exists path
      then socket_context user groups target path
      else ok (no_socket user groups target (some path) (some false))

  unfoldable pub access_context : List (String × String) → Result String DockerAccessContext
  unfolding context_of
  access_context env = and_then host.getuser λ user. and_then (group_names host.getgroups) λ groups.
      context_of user groups (docker_target env) (socket_path_from_target (docker_target env))

  abbrev cli_missing : DockerAccessContext → DockerEnvironmentProbe
  cli_missing access = record {
    cli_present = false;
    cli_path = none;
    daemon_reachable = false;
    daemon_error = none;
    detail = "docker CLI is not installed or not on PATH";
    issue_code = "cli_missing";
    remediation = "install Docker CLI and ensure it is available on PATH";
    access = access;
  }

  unfoldable pub ping_probe :
      DockerAccessContext → String → Result String Unit → DockerEnvironmentProbe
  unfolding classify_daemon_error
  ping_probe access path (err e) =
      let (issue_code, remediation) = classify_daemon_error host.lower e in
      record {
        cli_present = true;
        cli_path = some path;
        daemon_reachable = false;
        daemon_error = some e;
        detail = append "docker daemon is not reachable: " e;
        issue_code = issue_code;
        remediation = remediation;
        access = access;
      }
  ping_probe access path (ok _) = record {
    cli_present = true;
    cli_path = some path;
    daemon_reachable = true;
    daemon_error = none;
    detail = "docker CLI and daemon are available";
    issue_code = "ready";
    remediation = "none";
    access = access;
  }

  unfoldable pub probe_with : DockerAccessContext → Option String → DockerEnvironmentProbe
  unfolding ping_probe
  probe_with access none = cli_missing access
  probe_with access (some path) = ping_probe access path host.ping

  -- `env or os.environ`
  abbrev pub runtime_env : List (String × String) → List (String × String)
  runtime_env [] = host.environ
  runtime_env (e ∷ env) = e ∷ env

  -- `probe_docker_environment(env=env)`
  unfoldable pub probe_docker_environment :
      List (String × String) → Result String DockerEnvironmentProbe
  unfolding access_context probe_with
  probe_docker_environment env =
      and_then (access_context (runtime_env env))
        λ access. ok (probe_with access (host.which "docker"))
