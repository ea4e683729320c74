-- ===== src/Storage/Snapshots/Aside.antt =====
-- The snapshot manager works on the disk alone.
use labos.Prelude.{ℕ, String, Bool, true, false, Option, none, some, List, [], ◌∷◌, Result, ok, err}
use labos.Db.Rows.{FilePath, LabRow, LabStorageRow, SnapshotRow}
use labos.Db.Platform.{Platform}
use labos.Db.Aside.{Aside, Aside-bind, Aside-inspect, Aside-if, Aside-on_disk, aside_rules}
use labos.Storage.Metadata.{SnapshotError, SnapshotMetadata}
use labos.Storage.Snapshots.{
  caught_not, take_snapshot, create_snapshot, read_manifest, load_metadata, clear_children,
  clear_directory, move_children, settle_workspace, extract, unpack, restore_checked,
  restore_loaded, restore_snapshot,
}

caught_not-Aside : {D A : Type 0} (r : Result String A) → Aside {D = D} (caught_not r)
caught_not-Aside (ok a) = search aside_rules
caught_not-Aside (err e) = search aside_rules

module _ (os : Platform) where
  take_snapshot-Aside :
      (now : ℕ) (id : String) (lab : LabRow) (storage : LabStorageRow) (run : Option String)
      (checked : Result SnapshotError Unit)
      → Aside (take_snapshot os now id lab storage run checked)
  unfolding take_snapshot
  take_snapshot-Aside now id lab storage run (err e) = search aside_rules
  take_snapshot-Aside now id lab storage run (ok u) = search aside_rules depth 12

  pub create_snapshot-Aside :
      (now : ℕ) (id : String) (lab : LabRow) (storage : LabStorageRow) (run : Option String)
      → Aside (create_snapshot os now id lab storage run)
  unfolding create_snapshot
  create_snapshot-Aside now id lab storage run = take_snapshot-Aside now id lab storage run _

  read_manifest-Aside : (path : FilePath) (present : Bool) → Aside (read_manifest os path present)
  unfolding read_manifest
  read_manifest-Aside path false = search aside_rules
  read_manifest-Aside path true = search (aside_rules, caught_not-Aside)

  pub load_metadata-Aside : (row : SnapshotRow) → Aside (load_metadata os row)
  unfolding load_metadata
  load_metadata-Aside row = search (aside_rules, caught_not-Aside, read_manifest-Aside)

  clear_children-Aside :
      (path : FilePath) (children : List String) → Aside (clear_children os path children)
  unfolding clear_children
  clear_children-Aside path [] = search aside_rules
  clear_children-Aside path (child ∷ rest) = Aside-bind _ _ (Aside-inspect _) λ directory.
      Aside-bind _ _ (Aside-if _ _ _ (Aside-on_disk _) (Aside-on_disk _))
        λ u. clear_children-Aside path rest

  clear_directory-Aside : (path : FilePath) → Aside (clear_directory os path)
  unfolding clear_directory
  clear_directory-Aside path = search (aside_rules, clear_children-Aside)

  move_children-Aside :
      (source target : FilePath) (children : List String)
      → Aside (move_children os source target children)
  unfolding move_children
  move_children-Aside source target [] = search aside_rules
  move_children-Aside source target (child ∷ rest) =
      Aside-bind _ _ (Aside-on_disk _) λ u. move_children-Aside source target rest

  settle_workspace-Aside : (path : FilePath) → Aside (settle_workspace os path)
  unfolding settle_workspace
  settle_workspace-Aside path =
      search (aside_rules, clear_directory-Aside, move_children-Aside) depth 10

  extract-Aside :
      (now : ℕ) (lab : LabRow) (workspace root : FilePath) (m : SnapshotMetadata) (unsafe : Bool)
      → Aside (extract os now lab workspace root m unsafe)
  unfolding extract
  extract-Aside now lab workspace root m true = search aside_rules
  extract-Aside now lab workspace root m false =
      search (aside_rules, settle_workspace-Aside) depth 10

  unpack-Aside :
      (now : ℕ) (lab : LabRow) (workspace : FilePath) (m : SnapshotMetadata) (present : Bool)
      → Aside (unpack os now lab workspace m present)
  unfolding unpack
  unpack-Aside now lab workspace m false = search aside_rules
  unpack-Aside now lab workspace m true =
      search (aside_rules, caught_not-Aside, clear_directory-Aside, extract-Aside) depth 12

  restore_checked-Aside :
      (now : ℕ) (lab : LabRow) (storage : LabStorageRow) (m : SnapshotMetadata)
      (checked : Result SnapshotError Unit)
      → Aside (restore_checked os now lab storage m checked)
  unfolding restore_checked
  restore_checked-Aside now lab storage m (err e) = search aside_rules
  restore_checked-Aside now lab storage m (ok u) = search (aside_rules, unpack-Aside)

  restore_loaded-Aside :
      (now : ℕ) (lab : LabRow) (storage : LabStorageRow)
      (loaded : Result SnapshotError (Option SnapshotMetadata))
      → Aside (restore_loaded os now lab storage loaded)
  unfolding restore_loaded
  restore_loaded-Aside now lab storage (err e) = search aside_rules
  restore_loaded-Aside now lab storage (ok none) = search aside_rules
  restore_loaded-Aside now lab storage (ok (some m)) = restore_checked-Aside now lab storage m _

  pub restore_snapshot-Aside :
      (now : ℕ) (row : SnapshotRow) (lab : LabRow) (storage : LabStorageRow)
      → Aside (restore_snapshot os now row lab storage)
  unfolding restore_snapshot
  restore_snapshot-Aside now row lab storage =
      search (aside_rules, load_metadata-Aside, restore_loaded-Aside)
