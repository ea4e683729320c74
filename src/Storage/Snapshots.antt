-- ===== src/Storage/Snapshots.antt =====
-- `SnapshotManager` of labos/storage/snapshots.py.
pub mod Aside
pub mod Restoring
pub mod RoundTrip
use Prim.Native.String.{◌++◌ as append}
use labos.Prelude.{ℕ, String, Bool, true, false, not, ◌||◌, ◌&&◌, Option, none, some, List, [], ◌∷◌}
use labos.Prelude.{
  Result, ok, err, and_then, reject_if, is_none, any, ◌==◌, string_eq, if◌then◌else◌,
}
use labos.Policy.Models.{runtime_class_value}
use labos.Policy.PosixPaths.{strip_parts, parts_eq}
use labos.Db.Rows.{FilePath, LabRow, LabStorageRow, SnapshotRow}
use labos.Db.Platform.{Platform, Json, object, pos}
use labos.Db.Session.{Exec, pure, lift, inspect, on_disk, when, fault, ◌>>=◌, ◌>>◌}
use labos.Storage.Allocator.{◌//◌}
use labos.Storage.Metadata.{SnapshotError, unsupported_runtime, metadata_error, uncaught}
use labos.Storage.Metadata.{SnapshotMetadata, to_dict, from_dict}

-- `_ensure_runtime_supported`
unfoldable pub ensure_runtime_supported : String → Result SnapshotError Unit
ensure_runtime_supported runtime_class =
    reject_if (not (runtime_class == "container"))
      (unsupported_runtime "only container snapshots are supported in Phase 1")

-- `path.parent`
abbrev pub parent : FilePath → FilePath
parent [] = []
parent (p ∷ []) = []
parent (p ∷ q ∷ rest) = p ∷ parent (q ∷ rest)

-- whether the last two suffixes are `.tar` and `.gz`
abbrev pub ends_tar_gz : List String → Bool
ends_tar_gz [] = false
ends_tar_gz (s ∷ []) = false
ends_tar_gz (s ∷ t ∷ []) = s == ".tar" && t == ".gz"
ends_tar_gz (s ∷ t ∷ u ∷ rest) = ends_tar_gz (t ∷ u ∷ rest)

-- what a call of the library that is not caught raises
abbrev caught_not : {D A : Type 0} → Result String A → Exec D A
caught_not (ok a) = pure a
caught_not (err e) = lift (err (fault e))

module _ (os : Platform) where
  -- `_manifest_path_for`
  unfoldable pub manifest_path_for : FilePath → Result String FilePath
  manifest_path_for backend_ref =
      if ends_tar_gz (os.suffixes backend_ref)
      then and_then (os.with_suffix backend_ref "") (λ stem. os.with_suffix stem ".json")
      else os.with_suffix backend_ref ".json"

  abbrev pub archive_path : LabStorageRow → String → FilePath
  archive_path storage snapshot_id = storage.snapshots_path // append snapshot_id ".tar.gz"

  abbrev pub manifest_path : LabStorageRow → String → FilePath
  manifest_path storage snapshot_id = storage.snapshots_path // append snapshot_id ".json"

  abbrev pub new_metadata :
      ℕ → String → LabRow → LabStorageRow → Option String → String → ℕ → SnapshotMetadata
  new_metadata now snapshot_id lab storage run_id digest size = record {
    snapshot_id = snapshot_id;
    lab_id = lab.id;
    run_id = run_id;
    profile_name = lab.profile_name;
    runtime_class = runtime_class_value lab.runtime_class;
    state = "created";
    backend_ref = os.str_path (archive_path storage snapshot_id);
    manifest_path = os.str_path (manifest_path storage snapshot_id);
    sha256 = digest;
    size_bytes = pos size;
    workspace_path = os.str_path storage.workspace_path;
    created_at = os.isoformat now;
    restored_at = none;
    restored_lab_id = none;
  }

  -- what follows the check of the runtime
  unfoldable pub take_snapshot :
      ℕ
      → String
      → LabRow
      → LabStorageRow
      → Option String
      → Result SnapshotError Unit
      → Exec os.Disk (Result SnapshotError SnapshotMetadata)
  take_snapshot now snapshot_id lab storage run_id (err e) = pure (err e)
  take_snapshot now snapshot_id lab storage run_id (ok u) = do
    on_disk (os.mkdir storage.snapshots_path)
    on_disk (os.write_archive (archive_path storage snapshot_id) storage.workspace_path)
    digest ← inspect (λ disk. os.hash_file disk (archive_path storage snapshot_id))
    size ← inspect (λ disk. os.file_size disk (archive_path storage snapshot_id))
    let metadata = new_metadata now snapshot_id lab storage run_id digest size
    on_disk (os.write_text (manifest_path storage snapshot_id) (os.dumps (to_dict metadata)))
    pure (ok metadata)

  unfoldable pub create_snapshot :
      ℕ
      → String
      → LabRow
      → LabStorageRow
      → Option String
      → Exec os.Disk (Result SnapshotError SnapshotMetadata)
  unfolding take_snapshot
  create_snapshot now snapshot_id lab storage run_id =
      take_snapshot now snapshot_id lab storage run_id
        (ensure_runtime_supported (runtime_class_value lab.runtime_class))

  -- what a manifest's text says
  unfoldable pub parse_manifest : Option Json → Result SnapshotError SnapshotMetadata
  parse_manifest none = err (metadata_error "snapshot manifest is not valid JSON")
  parse_manifest (some (object payload)) = from_dict os payload
  parse_manifest (some Json.other) = err (uncaught "TypeError")

  abbrev found_manifest :
      Result SnapshotError SnapshotMetadata → Result SnapshotError (Option SnapshotMetadata)
  found_manifest (ok m) = ok (some m)
  found_manifest (err e) = err e

  unfoldable pub read_manifest :
      FilePath → Bool → Exec os.Disk (Result SnapshotError (Option SnapshotMetadata))
  unfolding parse_manifest
  read_manifest path false = pure (ok none)
  read_manifest path true = do
    content ← inspect (λ disk. os.read_text disk path)
    manifest ← caught_not content
    pure (found_manifest (parse_manifest (os.loads manifest)))

  unfoldable pub load_metadata :
      SnapshotRow → Exec os.Disk (Result SnapshotError (Option SnapshotMetadata))
  unfolding manifest_path_for read_manifest
  load_metadata row = do
    path ← caught_not (manifest_path_for row.backend_ref)
    present ← inspect (λ disk. os.exists disk path)
    read_manifest path present

  -- the loop of `_clear_directory`
  unfoldable pub clear_children : FilePath → List String → Exec os.Disk Unit
  clear_children path [] = pure tt
  clear_children path (child ∷ rest) = do
    directory ← inspect (λ disk. os.is_dir disk (path // child))
    if directory then on_disk (os.rmtree (path // child)) else on_disk (os.unlink (path // child))
    clear_children path rest

  unfoldable pub clear_directory : FilePath → Exec os.Disk Unit
  clear_directory path = do
    children ← inspect (λ disk. os.iterdir disk path)
    clear_children path children

  -- the loop that moves what was extracted
  unfoldable pub move_children : FilePath → FilePath → List String → Exec os.Disk Unit
  move_children source target [] = pure tt
  move_children source target (child ∷ rest) = do
    on_disk (os.replace (source // child) (target // child))
    move_children source target rest

  unfoldable pub settle_workspace : FilePath → Exec os.Disk Unit
  unfolding clear_directory move_children
  settle_workspace workspace_path = do
    let extracted = parent workspace_path // "workspace"
    present ← inspect (λ disk. os.exists disk extracted)
    when (not (parts_eq extracted workspace_path) && present) (do
      clear_directory workspace_path
      children ← inspect (λ disk. os.iterdir disk extracted)
      move_children extracted workspace_path children
      on_disk (os.rmdir extracted))

  -- whether a member of an archive would leave the root that it is extracted to
  abbrev pub is_unsafe : os.Disk → FilePath → String → Bool
  is_unsafe disk root name = is_none (strip_parts (os.resolve disk (os.join_path root name)) root)

  abbrev pub restored_metadata : ℕ → LabRow → SnapshotMetadata → SnapshotMetadata
  restored_metadata now target_lab m = record m {
    state = "restored";
    restored_at = some (os.isoformat now);
    restored_lab_id = some target_lab.id;
  }

  -- what follows the check of the archive's members
  unfoldable pub extract :
      ℕ
      → LabRow
      → FilePath
      → FilePath
      → SnapshotMetadata
      → Bool
      → Exec os.Disk (Result SnapshotError SnapshotMetadata)
  unfolding settle_workspace
  extract now target_lab workspace_path root m true =
      pure (err (metadata_error "snapshot archive contains an unsafe path"))
  extract now target_lab workspace_path root m false = do
    on_disk (os.extract_all (os.to_path m.backend_ref) root)
    settle_workspace workspace_path
    let restored = restored_metadata now target_lab m
    on_disk (os.write_text (os.to_path m.manifest_path) (os.dumps (to_dict restored)))
    pure (ok restored)

  -- what follows the check that the archive exists
  unfoldable pub unpack :
      ℕ
      → LabRow
      → FilePath
      → SnapshotMetadata
      → Bool
      → Exec os.Disk (Result SnapshotError SnapshotMetadata)
  unfolding clear_directory extract
  unpack now target_lab workspace_path m false =
      pure (err (metadata_error "snapshot archive is missing"))
  unpack now target_lab workspace_path m true = do
    on_disk (os.mkdir workspace_path)
    clear_directory workspace_path
    root ← inspect (λ disk. os.resolve disk (parent workspace_path))
    listed ← inspect (λ disk. os.member_names disk (os.to_path m.backend_ref))
    names ← caught_not listed
    unsafe ← inspect (λ disk. any (is_unsafe disk root) names)
    extract now target_lab workspace_path root m unsafe

  -- the runtime of the snapshot, then that of the lab
  abbrev pub check_runtimes : SnapshotMetadata → LabRow → Result SnapshotError Unit
  check_runtimes m target_lab =
      and_then (ensure_runtime_supported m.runtime_class)
        λ _. ensure_runtime_supported (runtime_class_value target_lab.runtime_class)

  unfoldable pub restore_checked :
      ℕ
      → LabRow
      → LabStorageRow
      → SnapshotMetadata
      → Result SnapshotError Unit
      → Exec os.Disk (Result SnapshotError SnapshotMetadata)
  unfolding unpack
  restore_checked now target_lab storage m (err e) = pure (err e)
  restore_checked now target_lab storage m (ok u) = do
    present ← inspect (λ disk. os.exists disk (os.to_path m.backend_ref))
    unpack now target_lab storage.workspace_path m present

  unfoldable pub restore_loaded :
      ℕ
      → LabRow
      → LabStorageRow
      → Result SnapshotError (Option SnapshotMetadata)
      → Exec os.Disk (Result SnapshotError SnapshotMetadata)
  unfolding restore_checked
  restore_loaded now target_lab storage (err e) = pure (err e)
  restore_loaded now target_lab storage (ok none) =
      pure (err (metadata_error "snapshot manifest is missing"))
  restore_loaded now target_lab storage (ok (some m)) =
      restore_checked now target_lab storage m (check_runtimes m target_lab)

  unfoldable pub restore_snapshot :
      ℕ
      → SnapshotRow
      → LabRow
      → LabStorageRow
      → Exec os.Disk (Result SnapshotError SnapshotMetadata)
  unfolding load_metadata restore_loaded
  restore_snapshot now row target_lab storage = do
    loaded ← load_metadata row
    restore_loaded now target_lab storage loaded
