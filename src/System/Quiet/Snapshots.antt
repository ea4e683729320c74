-- ===== src/System/Quiet/Snapshots.antt =====
-- The parts of the snapshot endpoints that commit nothing.
use labos.Prelude.{ℕ, String, Option, none, some}
use labos.Db.Rows.{SnapshotRow, LabRow, LabStorageRow}
use labos.Db.Platform.{Platform}
use labos.Db.Quiet.{Quiet, quiet_rules}
use labos.Db.Aside.{Aside→Quiet}
use labos.Storage.Snapshots.{create_snapshot, restore_snapshot}
use labos.Storage.Snapshots.Aside.{create_snapshot-Aside, restore_snapshot-Aside}
use labos.Api.App.{require_run, require_snapshot}
use labos.Api.Snapshots.{check_snapshot_run}

module _ {D : Type 0} where
  pub require_snapshot-Quiet : (id : String) → Quiet (require_snapshot {D = D} id)
  unfolding require_snapshot
  require_snapshot-Quiet id = search quiet_rules

  pub check_snapshot_run-Quiet :
      (lab : LabRow) (run : Option String) → Quiet (check_snapshot_run {D = D} lab run)
  unfolding check_snapshot_run require_run
  check_snapshot_run-Quiet lab none = search quiet_rules
  check_snapshot_run-Quiet lab (some id) = search quiet_rules

module _ (os : Platform) where
  pub create_snapshot-Quiet :
      (now : ℕ) (id : String) (lab : LabRow) (storage : LabStorageRow) (run : Option String)
      → Quiet (create_snapshot os now id lab storage run)
  create_snapshot-Quiet now id lab storage run =
      Aside→Quiet _ (create_snapshot-Aside os now id lab storage run)

  pub restore_snapshot-Quiet :
      (now : ℕ) (row : SnapshotRow) (lab : LabRow) (storage : LabStorageRow)
      → Quiet (restore_snapshot os now row lab storage)
  restore_snapshot-Quiet now row lab storage =
      Aside→Quiet _ (restore_snapshot-Aside os now row lab storage)

pub ruleset snapshot_quiet = (
  require_snapshot-Quiet, check_snapshot_run-Quiet, create_snapshot-Quiet, restore_snapshot-Quiet,
)
