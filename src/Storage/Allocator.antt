-- ===== src/Storage/Allocator.antt =====
-- labos/storage/models.py and labos/storage/allocator.py.
use labos.Prelude.{ℕ, String, Bool, true, false, [], ◌∷◌, ◌++◌, ◌+◌, ◌*◌}
use labos.Prelude.{ltb, if◌then◌else◌, is_none}
use labos.Policy.Models.{FilesystemMode, PersistenceMode, Profile}
use labos.Policy.PosixPaths.{strip_parts}
use labos.Db.Rows.{FilePath}
use labos.Db.Platform.{Platform}
use labos.Db.Session.{Exec, pure, inspect, raise_if, when, on_disk, fault, hours, ◌>>=◌, ◌>>◌}

pub record StoragePolicy : Type 0 where
  pub filesystem_mode : FilesystemMode
  pub persistence_mode : PersistenceMode
  pub disk_mb : ℕ
  pub retention_days : ℕ
  pub snapshot_capable : Bool
  pub workspace_mount_target : String

unfoldable pub from_profile : Profile → StoragePolicy
from_profile profile = record {
  filesystem_mode = profile.filesystem_mode;
  persistence_mode = profile.persistence_mode;
  disk_mb = profile.disk_mb;
  retention_days = profile.retention_days;
  snapshot_capable = true;
  workspace_mount_target = "/workspace";
}

pub record StorageAllocation : Type 0 where
  pub lab_id : String
  pub root_path : FilePath
  pub workspace_path : FilePath
  pub exports_path : FilePath
  pub quarantine_path : FilePath
  pub snapshots_path : FilePath
  pub persistence_mode : PersistenceMode
  pub retention_days : ℕ
  pub workspace_mount_target : String

-- `path / name` for one component
infixl 65 ◌//◌
abbrev pub ◌//◌ : FilePath → String → FilePath
path // name = path ++ name ∷ []

abbrev pub lab_root : FilePath → String → FilePath
lab_root root lab_id = root // "labs" // lab_id

abbrev pub allocation : FilePath → String → StoragePolicy → StorageAllocation
allocation root lab_id policy = record {
  lab_id = lab_id;
  root_path = lab_root root lab_id;
  workspace_path = lab_root root lab_id // "workspace";
  exports_path = lab_root root lab_id // "exports";
  quarantine_path = lab_root root lab_id // "quarantine";
  snapshots_path = lab_root root lab_id // "snapshots";
  persistence_mode = policy.persistence_mode;
  retention_days = policy.retention_days;
  workspace_mount_target = policy.workspace_mount_target;
}

-- `root` is resolved when the allocator is built
module _ (os : Platform) (root : FilePath) where
  unfoldable pub allocate : String → StoragePolicy → Exec os.Disk StorageAllocation
  allocate lab_id policy = do
    on_disk (os.mkdir (lab_root root lab_id // "workspace"))
    on_disk (os.mkdir (lab_root root lab_id // "exports"))
    on_disk (os.mkdir (lab_root root lab_id // "quarantine"))
    on_disk (os.mkdir (lab_root root lab_id // "snapshots"))
    pure (allocation root lab_id policy)

  unfoldable pub assert_managed_path : FilePath → Exec os.Disk Unit
  assert_managed_path path = do
    resolved ← inspect (λ disk. os.resolve disk path)
    raise_if (is_none (strip_parts resolved root))
        (fault "path must stay under the managed storage root")

  unfoldable pub destroy : StorageAllocation → Exec os.Disk Unit
  unfolding assert_managed_path
  destroy a = do
    assert_managed_path a.root_path
    present ← inspect (λ disk. os.exists disk a.root_path)
    when present (on_disk (os.rmtree a.root_path))

  unfoldable pub retention_deadline : StorageAllocation → ℕ → ℕ
  retention_deadline a released_at = elim a.persistence_mode [
    | PersistenceMode.ephemeral ↦ released_at
    | PersistenceMode.persistent ↦ released_at + hours (24 * a.retention_days)
  ]

  unfoldable pub cleanup : StorageAllocation → ℕ → ℕ → Exec os.Disk Bool
  unfolding assert_managed_path retention_deadline
  cleanup a released_at as_of = do
    assert_managed_path a.root_path
    if ltb as_of (retention_deadline a released_at) then pure false else do
      present ← inspect (λ disk. os.exists disk a.root_path)
      when present (on_disk (os.rmtree a.root_path))
      pure true
