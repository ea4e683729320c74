-- ===== src/Tests/Hosts.antt =====
-- Probes of a host whose daemon answers, and updates of a lab's record.
use labos.Prelude.{String, ◌≡◌, refl, true, false, some, [], ◌∷◌, any}
use Prim.Native.String.{◌++◌ as append}
use labos.Policy.Values.{lookup}
use labos.Db.Table.{order_by}
use labos.Runtimes.Numerals.{octal}
use labos.Prelude.{◌↔◌, ok, err, All, ◌==◌, nat_eq, if◌then◌else◌}
use labos.Core.Enums.{LabState}
use labos.Core.Entities.{LabRecord, lab_fields}
use labos.Core.Entities.Updates.{attribute, validate_update_from, validate_update_from_iff}
use labos.Runtimes.Probe.{
  ProbeHost, DockerAccessContext, DockerEnvironmentProbe, probe_docker_environment, access_context,
  group_names, add_name, socket_path_from_target, docker_target,
}
use labos.Runtimes.Probe.Diagnosis.{Diagnosed, probe_docker_environment-Diagnosed}
use labos.Runtimes.Probe.Groups.{named, access_context-member}

abbrev station : ProbeHost
station = record {
  getuser = ok "dev";
  getgroups = 7 ∷ 3 ∷ 7 ∷ [];
  group_name = λ id. if◌then◌else◌ (id == 7) (ok "docker") (ok "dev");
  user_name = λ id. ok "root";
  exists = λ path. true;
  stat = λ path. ok (0, 7, 49584);
  which = λ name. some "/usr/bin/docker";
  ping = err "permission denied";
  lower = λ s. s;
  environ = [];
}

abbrev at_socket : DockerAccessContext
at_socket = record {
  current_user = some "dev";
  user_groups = "dev" ∷ "docker" ∷ [];
  daemon_target = "unix:///var/run/docker.sock";
  socket_path = some "/var/run/docker.sock";
  socket_exists = some true;
  socket_owner = some "root";
  socket_group = some "docker";
  socket_mode = some "660";
  user_in_socket_group = some true;
}

abbrev at_station : DockerEnvironmentProbe
at_station = record {
  cli_present = true;
  cli_path = some "/usr/bin/docker";
  daemon_reachable = false;
  daemon_error = some "permission denied";
  detail = "docker daemon is not reachable: permission denied";
  issue_code = "daemon_permission_denied";
  remediation =
      append "run on a host/user that can access the Docker daemon "
        "(for example via docker group membership or a rootless Docker context)";
  access = at_socket;
}

probe_docker_environment-Diagnosed_example : Diagnosed station at_station
unfolding probe_docker_environment group_names socket_path_from_target docker_target lookup add_name
    octal
probe_docker_environment-Diagnosed_example =
    probe_docker_environment-Diagnosed station [] at_station refl

access_context-member_example :
    at_socket.user_in_socket_group
    ≡ some (any (λ id. named station "docker" (station.group_name id)) station.getgroups)
unfolding access_context group_names socket_path_from_target docker_target lookup add_name octal
access_context-member_example = access_context-member station [] at_socket "docker" refl refl

abbrev lab_record : String → LabState → LabRecord
lab_record profile state = record {
  entity = record { id = "a"; created_at = 1; updated_at = 2 };
  profile_name = profile;
  state = state;
}

validate_update_from_iff_example :
    (validate_update_from
        (lab_record "safe-dev" LabState.running)
        (lab_record "safe-dev" LabState.requested)
      ≡ ok tt)
    ↔ All
        (λ f.
          attribute (lab_record "safe-dev" LabState.running) f
          ≡ attribute (lab_record "safe-dev" LabState.requested) f)
        lab_fields.immutable_fields
validate_update_from_iff_example =
    validate_update_from_iff (lab_record "safe-dev" LabState.running)
      (lab_record "safe-dev" LabState.requested)

refused_update :
    validate_update_from
      (lab_record "open" LabState.running)
      (lab_record "safe-dev" LabState.running)
    ≡ err "immutable fields changed: profile_name"
unfolding validate_update_from lookup order_by
refused_update = refl
