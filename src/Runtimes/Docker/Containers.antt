-- ===== src/Runtimes/Docker/Containers.antt =====
-- The operations of `DockerRuntime` on a lab's container (labos/runtimes/docker_runtime.py).
use Prim.Native.String.{compare}
use package.text.Mathlib.Text.{is_lt}
use labos.Prelude.{ℕ, String, Bool, Option, none, some, List, [], ◌∷◌}
use labos.Prelude.{◌==◌, if◌then◌else◌, string_eq}
use labos.Policy.Values.{lookup}
use labos.Db.Table.{order_by}
use labos.Runtimes.Base.{RunExecutionResult, LabInspection}
use labos.Runtimes.Act.{Act, pure, lift, each, when, ignore, ◌>>=◌, ◌>>◌}
use labos.Runtimes.Client.{Client}
use labos.Runtimes.Docker.{backend_name, container_name, network_name, labels}

module _ (client : Client) where
  -- `_get_container`
  abbrev container_of : String → Act client.Daemon client.Container
  container_of lab_id = client.get_container (container_name lab_id)

  unfoldable pub start_lab : String → Act client.Daemon Unit
  start_lab lab_id = do container ← container_of lab_id; client.start container

  unfoldable pub stop_lab : String → ℕ → Act client.Daemon Unit
  stop_lab lab_id timeout = do container ← container_of lab_id; client.stop container timeout

  -- `_extract_volume_names`
  unfoldable pub extract_volume_names : List (Option String) → List String
  extract_volume_names [] = []
  extract_volume_names (none ∷ rest) = extract_volume_names rest
  extract_volume_names (some name ∷ rest) =
      let names = extract_volume_names rest in if name == "" then names else name ∷ names

  unfoldable pub remove_network_named : String → Act client.Daemon Unit
  remove_network_named name =
      ignore do network ← client.get_network name; client.remove_network network

  unfoldable pub remove_volume_named : String → Act client.Daemon Unit
  remove_volume_named name = ignore do volume ← client.get_volume name; client.remove_volume volume

  unfoldable pub destroy_lab : String → Bool → Act client.Daemon Unit
  unfolding remove_network_named remove_volume_named
  destroy_lab lab_id remove_persistent_volume = do
    container ← container_of lab_id
    client.remove_container container
    remove_network_named (network_name lab_id)
    when remove_persistent_volume
        (each remove_volume_named (extract_volume_names (client.mount_names container)))

  unfoldable pub exec_run : String → String → Act client.Daemon RunExecutionResult
  exec_run lab_id command = do
    container ← container_of lab_id
    (code, output) ← client.exec_run container command
    exit_code ← lift code
    stdout ← lift (client.decode output)
    pure (record { exit_code = exit_code; stdout = stdout; stderr = "" })

  unfoldable pub get_logs : String → String → Act client.Daemon String
  get_logs lab_id tail = do
    container ← container_of lab_id
    output ← client.logs container tail
    lift (client.decode output)

  abbrev or_default : String → Option String → String
  or_default fallback none = fallback
  or_default fallback (some s) = s

  unfoldable pub inspect_lab : String → Act client.Daemon LabInspection
  inspect_lab lab_id = do
    found ← container_of lab_id
    container ← client.reload found
    pure (record {
      lab_id = lab_id;
      backend = backend_name;
      container_name = container_name lab_id;
      status = or_default "unknown" (client.state_status container);
      labels = labels lab_id [];
    })

  abbrev labels_or_empty : Option (List (String × String)) → List (String × String)
  labels_or_empty none = []
  labels_or_empty (some entries) = entries

  abbrev inspected : client.Container → Option String → List LabInspection → List LabInspection
  inspected container none rest = rest
  inspected container (some lab_id) rest =
      record {
        lab_id = lab_id;
        backend = backend_name;
        container_name = or_default (container_name lab_id) (client.name_of container);
        status = or_default "unknown" (client.status_of container);
        labels = labels_or_empty (client.labels_of container);
      }
      ∷ rest

  -- the loop of `list_managed_labs`
  unfoldable pub inspections : List client.Container → List LabInspection
  inspections [] = []
  inspections (container ∷ rest) =
      inspected container (lookup "labos.lab_id" (labels_or_empty (client.labels_of container)))
        (inspections rest)

  abbrev pub inspection_before : LabInspection → LabInspection → Bool
  inspection_before a b = is_lt (compare a.lab_id b.lab_id)

  unfoldable pub list_managed_labs : Act client.Daemon (List LabInspection)
  unfolding inspections
  list_managed_labs = do
    containers ← client.list_containers "labos.managed=true"
    pure (order_by inspection_before (inspections containers))
