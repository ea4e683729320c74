-- ===== src/System/Handlers.antt =====
-- The lab and run endpoints keep `Sound`, whether they return or raise; the others are in the
-- children.
pub mod Approvals
pub mod Exports
pub mod Leases
pub mod Snapshots
pub mod Jobs
pub mod Reconciliation
use labos.Prelude.{
  ℕ, ◌≡◌, refl, String, Bool, true, false, Option, none, some, List, [], ◌∷◌, Result, ok,
}
use labos.Prelude.{err, arith, All, ◌<◌, Bool-cases, inl, inr, if◌then◌else◌}
use labos.Core.Enums.{LabState, ApprovalState, ExportState}
use labos.Core.Events.{EventRecord, write}
use labos.Db.Rows.{FilePath, Db, LabRow, LabStorageRow, ApprovalRow, ExportRow, RunRow}
use labos.Db.Platform.{Platform}
use labos.Db.Session.{Exec, pure, ◌>>=◌, ◌>>◌}
use labos.Db.Keeps.{Keeps, Keeps-with_session, Keeps-bind, Keeps-when}
use labos.Policy.Models.{RequesterType}
use labos.Policy.Engine.{RequestDecision}
use labos.Storage.Allocator.{StoragePolicy, StorageAllocation, allocate, destroy}
use labos.Api.App.{App, record_approval_request, requested_row}
use labos.Api.Labs.{
  request_lab_approval, create_lab_record, create_lab, get_lab, destroy_lab, new_lab,
}
use labos.Api.Runs.{create_run_record, create_run, get_run, new_run}
use labos.System.Sound.{Sound, LabSound, RunSound, ApprovalSound, ExportSound}
use labos.System.Rules.{sound_rules, require_lab-Sound, require_run-Sound}

module _ (os : Platform) (now : ℕ) where
  pub write-Sound : (e : EventRecord) → Keeps Sound (write os now e)
  unfolding write
  write-Sound e = search sound_rules

  pub record_approval_request-Sound :
      (lab_id : Option String) (resource_type resource_id action reason requested_by : String)
      → Keeps Sound (
          record_approval_request os now lab_id resource_type resource_id action reason
            requested_by)
  unfolding record_approval_request
  record_approval_request-Sound lab_id resource_type resource_id action reason requested_by =
      search (sound_rules, requested_row-Sound)
    where
      requested_row-Sound :
          (id : String)
          → ApprovalSound
              (requested_row now id lab_id resource_type resource_id action reason requested_by)
      requested_row-Sound id = ground arith

pub allocate-Sound :
    (os : Platform) (root : FilePath) (lab_id : String) (policy : StoragePolicy)
    → Keeps Sound (allocate os root lab_id policy)
unfolding allocate
allocate-Sound os root lab_id policy = search sound_rules

pub destroy-Sound :
    (os : Platform) (root : FilePath) (a : StorageAllocation) → Keeps Sound (destroy os root a)
unfolding destroy
destroy-Sound os root a = search sound_rules

new_lab-Sound :
    (now : ℕ) (id : String) (decision : RequestDecision) → LabSound (new_lab now id decision)
new_lab-Sound now id decision = ground arith

module _ (os : Platform) (app : App) (now : ℕ) where
  pub request_lab_approval-Sound :
      (requester : RequesterType) (lab_id : String) (decision : RequestDecision)
      → Keeps Sound (request_lab_approval os app now requester lab_id decision)
  unfolding request_lab_approval
  request_lab_approval-Sound requester lab_id decision =
      search (sound_rules, write-Sound, record_approval_request-Sound)

  pub create_lab_record-Sound :
      (name : String) (requester : RequesterType)
      → Keeps Sound (create_lab_record os app now name requester)
  unfolding create_lab_record
  create_lab_record-Sound name requester =
      search (sound_rules, write-Sound, allocate-Sound, new_lab-Sound, request_lab_approval-Sound)
        depth 20

  pub create_lab-Sound :
      (name : String) (requester : RequesterType)
      → Keeps Sound (create_lab os app now name requester)
  unfolding create_lab
  create_lab-Sound name requester = search (sound_rules, create_lab_record-Sound) depth 10

  destroyed-LabSound : (row : LabRow) → LabSound (record row { state = LabState.destroyed })
  destroyed-LabSound row = ground arith

  pub destroy_lab-Sound : (lab_id : String) → Keeps Sound (destroy_lab os app now lab_id)
  unfolding destroy_lab
  destroy_lab-Sound lab_id = Keeps-with_session _ (
      require_lab-Sound lab_id _
        λ row _. search (sound_rules, write-Sound, destroy-Sound, destroyed-LabSound) depth 20)

  new_run-Sound :
      (timeout : ℕ) (id lab_id command : String) → RunSound (new_run now timeout id lab_id command)
  new_run-Sound timeout id lab_id command = ground arith

  pub create_run_record-Sound :
      (lab_id command : String) (requester : RequesterType)
      → Keeps Sound (create_run_record os app now lab_id command requester)
  unfolding create_run_record
  create_run_record-Sound lab_id command requester =
      require_lab-Sound lab_id _ λ row _. search (sound_rules, write-Sound, new_run-Sound) depth 15

  pub create_run-Sound :
      (lab_id command : String) (requester : RequesterType)
      → Keeps Sound (create_run os app now lab_id command requester)
  unfolding create_run
  create_run-Sound lab_id command requester = search (sound_rules, create_run_record-Sound) depth 10
