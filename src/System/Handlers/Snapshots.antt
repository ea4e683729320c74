-- ===== src/System/Handlers/Snapshots.antt =====
-- The snapshot endpoints keep `Sound`.
use labos.Prelude.{ℕ, String, Option, none, some}
use labos.Db.Rows.{SnapshotRow, LabRow, LabStorageRow}
use labos.Db.Changes.{add_snapshot}
use labos.Db.Platform.{Platform}
use labos.Db.Session.{modify}
use labos.Db.Keeps.{Keeps, Keeps-modify, keeps_rules}
use labos.Db.Aside.{Aside→Keeps}
use labos.Policy.Models.{RequesterType}
use labos.Storage.Snapshots.{create_snapshot, restore_snapshot}
use labos.Storage.Snapshots.Aside.{create_snapshot-Aside, restore_snapshot-Aside}
use labos.Api.App.{App, require_lab, require_run, require_snapshot}
use labos.Api.Snapshots.{check_snapshot_run, create_snapshot_endpoint, restore_snapshot_endpoint}
use labos.System.Sound.{Sound}
use labos.System.Rules.{sound_rules}
use labos.System.Handlers.{write-Sound}

module _ {D : Type 0} where
  add_snapshot-Sound : (r : SnapshotRow) → Keeps {D = D} Sound (modify (add_snapshot r))
  unfolding add_snapshot
  add_snapshot-Sound r = Keeps-modify (add_snapshot r) λ d h. record {
    labs = h.labs;
    runs = h.runs;
    approvals = h.approvals;
    exports = h.exports;
    leases = h.leases;
    jobs = h.jobs;
  }

  read_lab-Sound : (id : String) → Keeps {D = D} Sound (require_lab id)
  unfolding require_lab
  read_lab-Sound id = search keeps_rules

  read_snapshot-Sound : (id : String) → Keeps {D = D} Sound (require_snapshot id)
  unfolding require_snapshot
  read_snapshot-Sound id = search keeps_rules

  check_snapshot_run-Sound :
      (lab : LabRow) (run : Option String) → Keeps {D = D} Sound (check_snapshot_run lab run)
  unfolding check_snapshot_run require_run
  check_snapshot_run-Sound lab none = search keeps_rules
  check_snapshot_run-Sound lab (some id) = search keeps_rules

module _ (os : Platform) (app : App) (now : ℕ) where
  create_snapshot-Sound :
      (id : String) (lab : LabRow) (storage : LabStorageRow) (run : Option String)
      → Keeps Sound (create_snapshot os now id lab storage run)
  create_snapshot-Sound id lab storage run =
      Aside→Keeps _ (create_snapshot-Aside os now id lab storage run)

  restore_snapshot-Sound :
      (row : SnapshotRow) (lab : LabRow) (storage : LabStorageRow)
      → Keeps Sound (restore_snapshot os now row lab storage)
  restore_snapshot-Sound row lab storage =
      Aside→Keeps _ (restore_snapshot-Aside os now row lab storage)

  pub create_snapshot_endpoint-Sound :
      (lab : String) (run : Option String) (requester : RequesterType)
      → Keeps Sound (create_snapshot_endpoint os app now lab run requester)
  unfolding create_snapshot_endpoint
  create_snapshot_endpoint-Sound lab run requester =
      search
        (
          sound_rules, read_lab-Sound, check_snapshot_run-Sound, create_snapshot-Sound,
          add_snapshot-Sound, write-Sound,
        )
        depth 20

  pub restore_snapshot_endpoint-Sound :
      (id lab : String) (requester : RequesterType)
      → Keeps Sound (restore_snapshot_endpoint os app now id lab requester)
  unfolding restore_snapshot_endpoint
  restore_snapshot_endpoint-Sound id lab requester =
      search (sound_rules, read_lab-Sound, read_snapshot-Sound, restore_snapshot-Sound, write-Sound)
        depth 20
