-- ===== src/Policy/Profiles.antt =====
-- labos/config/profiles/base.py: the built-in profiles.
use labos.Prelude.{String, true, false, List, [], ◌∷◌}
use labos.Core.Enums.{AuditLevel}
use labos.Policy.Models.{Profile, RuntimeClass, RiskClass, NetworkMode, FilesystemMode}
use labos.Policy.Models.{PersistenceMode, ExportMode}

abbrev pub safe_dev : Profile
safe_dev = record {
  name = "safe-dev";
  runtime_class = RuntimeClass.container;
  risk_class = RiskClass.low;
  network_mode = NetworkMode.restricted;
  filesystem_mode = FilesystemMode.managed;
  persistence_mode = PersistenceMode.ephemeral;
  export_mode = ExportMode.request;
  cpu_limit = 2;
  memory_mb = 2048;
  disk_mb = 8192;
  max_runtime_minutes = 60;
  approval_on_start = false;
  approval_on_export = false;
  audit_level = AuditLevel.basic;
  retention_days = 3;
  allow_host_mounts = false;
  allowed_secret_names = [];
}

abbrev pub model_local : Profile
model_local = record {
  name = "model-local";
  runtime_class = RuntimeClass.container;
  risk_class = RiskClass.medium;
  network_mode = NetworkMode.restricted;
  filesystem_mode = FilesystemMode.managed;
  persistence_mode = PersistenceMode.persistent;
  export_mode = ExportMode.request;
  cpu_limit = 4;
  memory_mb = 8192;
  disk_mb = 51200;
  max_runtime_minutes = 480;
  approval_on_start = false;
  approval_on_export = true;
  audit_level = AuditLevel.detailed;
  retention_days = 14;
  allow_host_mounts = false;
  allowed_secret_names = [];
}

abbrev pub research_persistent : Profile
research_persistent = record {
  name = "research-persistent";
  runtime_class = RuntimeClass.container;
  risk_class = RiskClass.high;
  network_mode = NetworkMode.restricted;
  filesystem_mode = FilesystemMode.managed;
  persistence_mode = PersistenceMode.persistent;
  export_mode = ExportMode.approval;
  cpu_limit = 8;
  memory_mb = 16384;
  disk_mb = 102400;
  max_runtime_minutes = 4320;
  approval_on_start = false;
  approval_on_export = true;
  audit_level = AuditLevel.forensic;
  retention_days = 30;
  allow_host_mounts = false;
  allowed_secret_names = [];
}

abbrev pub red_zone : Profile
red_zone = record {
  name = "red-zone";
  runtime_class = RuntimeClass.microvm;
  risk_class = RiskClass.critical;
  network_mode = NetworkMode.deny;
  filesystem_mode = FilesystemMode.read_only_root;
  persistence_mode = PersistenceMode.ephemeral;
  export_mode = ExportMode.approval;
  cpu_limit = 4;
  memory_mb = 4096;
  disk_mb = 16384;
  max_runtime_minutes = 120;
  approval_on_start = true;
  approval_on_export = true;
  audit_level = AuditLevel.forensic;
  retention_days = 7;
  allow_host_mounts = false;
  allowed_secret_names = [];
}

abbrev pub default_profiles : List (String × Profile)
default_profiles =
    ("safe-dev", safe_dev)
    ∷ ("model-local", model_local)
    ∷ ("research-persistent", research_persistent)
    ∷ ("red-zone", red_zone)
    ∷ []
