-- ===== src/Tests/Snapshots.antt =====
-- Snapshots taken and restored.
use labos.Prelude.{String, ◌≡◌, refl, sym, ap, ok-injective, true, false, some, none, [], ◌∷◌, ok}
use labos.Db.Rows.{SnapshotRow, FilePath}
use labos.Policy.PosixPaths.{parts_eq}
use labos.Prelude.{◌==◌, if◌then◌else◌, string_eq}
use labos.Db.Platform.{Platform, Json, ℤ}
use labos.Db.Session.{World, ◌>>=◌}
use labos.Storage.Metadata.{SnapshotMetadata, to_dict, from_dict, from_lookup, from_dict-to_dict}
use labos.Policy.Values.{lookup}
use labos.Storage.Snapshots.{
  archive_path, manifest_path_for, create_snapshot, load_metadata, restore_snapshot,
  restored_metadata, ensure_runtime_supported, clear_children,
}
use labos.Storage.Snapshots.RoundTrip.{IsFaithful, load_metadata-create_snapshot}
use labos.Storage.Snapshots.Restoring.{Restored, restore_snapshot-Restored}
use labos.System.Requests.{start}
use labos.Tests.Fixtures.{host}
use labos.Tests.Gates.{lab, storage}

abbrev taken : SnapshotMetadata
taken = record {
  snapshot_id = "s";
  lab_id = "lab";
  run_id = some "run";
  profile_name = "safe-dev";
  runtime_class = "container";
  state = "created";
  backend_ref = "archive";
  manifest_path = "archive";
  sha256 = "digest";
  size_bytes = ℤ.pos 7;
  workspace_path = "archive";
  created_at = "ii";
  restored_at = none;
  restored_lab_id = none;
}

from_dict-to_dict_example : from_dict host (to_dict taken) ≡ ok taken
from_dict-to_dict_example = from_dict-to_dict host taken (to_dict taken) λ key. refl

-- a host whose disk holds one text
abbrev in_snapshots : String → FilePath
in_snapshots name = "srv" ∷ "lab" ∷ "snapshots" ∷ name ∷ []

-- `with_suffix` on the names of a snapshot `s`
abbrev renamed : FilePath → String → FilePath
renamed path suffix =
    if suffix == ""
    then in_snapshots "s.tar"
    else if parts_eq path (in_snapshots "s.tar")
    then in_snapshots "s.json"
    else in_snapshots "s.tar.json"

abbrev desk : Platform
desk = record host {
  Disk = String;
  exists = λ disk path. true;
  is_file = λ disk path. true;
  is_dir = λ disk path. false;
  resolve = λ disk path. path;
  iterdir = λ disk path. [];
  mkdir = λ path disk. ok disk;
  copy2 = λ source target disk. ok disk;
  rmtree = λ path disk. ok disk;
  unlink = λ path disk. ok disk;
  rmdir = λ path disk. ok disk;
  replace = λ source target disk. ok disk;
  hash_file = λ disk path. "digest";
  file_size = λ disk path. 7;
  read_text = λ disk path. ok disk;
  write_text = λ path content disk. ok content;
  write_archive = λ archive directory disk. ok disk;
  member_names = λ disk archive. ok ("workspace" ∷ []);
  extract_all = λ archive root disk. ok disk;
  loads = λ content. some (Json.object (to_dict taken));
  str_path = λ path. "archive";
  to_path = λ content. "srv" ∷ "lab" ∷ "snapshots" ∷ "s.tar.gz" ∷ [];
  suffixes = λ path. ".tar" ∷ ".gz" ∷ [];
  with_suffix = λ path suffix. ok (renamed path suffix);
}

abbrev world : World String
world = start "nothing"

abbrev taken_world : World String
taken_world = record world { disk = "manifest" }

abbrev row : SnapshotRow
row = record {
  id = "s";
  created_at = 2;
  lab_id = "lab";
  backend_ref = archive_path desk storage "s";
}

desk-IsFaithful : IsFaithful desk "s" storage taken
unfolding manifest_path_for
desk-IsFaithful = record {
  read-write = λ path content disk disk' e. (refl, ap ok (sym (ok-injective content disk' e)));
  loads-dumps = (to_dict taken, refl, λ key. refl);
  to_path-str_path = refl;
  suffixes-archive = ([], refl);
  with_suffix-archive = refl;
  with_suffix-stem = refl;
}

snapshot_taken :
    create_snapshot desk 2 "s" lab storage (some "run") world ≡ (ok (ok taken), taken_world)
unfolding create_snapshot ◌>>=◌ ensure_runtime_supported
snapshot_taken = refl

load_metadata-create_snapshot_example :
    load_metadata desk row taken_world ≡ (ok (ok (some taken)), taken_world)
load_metadata-create_snapshot_example =
    load_metadata-create_snapshot desk "s" lab storage taken desk-IsFaithful 2 (some "run") row
      world taken_world snapshot_taken refl

snapshot_restored :
    restore_snapshot desk 3 row lab storage taken_world
    ≡ (ok (ok (restored_metadata desk 3 lab taken)), taken_world)
unfolding restore_snapshot ◌>>=◌ from_dict from_lookup lookup to_dict ensure_runtime_supported
    clear_children
snapshot_restored = refl

restore_snapshot-Restored_example :
    Restored desk 3 lab row storage (restored_metadata desk 3 lab taken) taken_world
restore_snapshot-Restored_example =
    restore_snapshot-Restored desk 3 lab row storage (restored_metadata desk 3 lab taken)
      taken_world taken_world snapshot_restored
