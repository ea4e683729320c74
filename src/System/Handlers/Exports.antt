-- ===== src/System/Handlers/Exports.antt =====
-- The export endpoints keep `Sound`.
use labos.Prelude.{ℕ, ◌≡◌, refl, String, false, Option, none, some, arith, Result, ok, err}
use labos.Prelude.{is_none}
use labos.Core.Enums.{ExportState, export_eq}
use labos.Db.Rows.{LabRow, LabStorageRow, ExportRow, FilePath}
use labos.Db.Platform.{Platform}
use labos.Db.Keeps.{Keeps, Keeps-bind, Keeps-bind-Yields, Keeps-bind-lift, Keeps-with_session}
use labos.Db.Keeps.{Yields, Yields-pure, Yields-bind, Yields-bind-inspect, keeps_rules}
use labos.Policy.Models.{RequesterType}
use labos.Policy.Engine.{ExportDecision, Profiles}
use labos.Security.ExportGate.{
  GateError, ExportStageResult, quarantine, stage_export, check_release, copy_out, release_export,
  deny_export,
}
use labos.Api.App.{App}
use labos.Api.Exports.{
  check_run, new_export, released_row, denied_row, request_export_approval, create_export,
  finish_release, release_export_endpoint, deny_export_endpoint, gate_result,
}
use labos.System.Sound.{Sound, ExportSound}
use labos.System.Rules.{sound_rules, require_lab-Sound, require_run-Sound, require_export-Sound}
use labos.System.Handlers.{write-Sound, record_approval_request-Sound}

-- what `stage_export` returns is in quarantine, with nothing released
abbrev pub IsStaged : Result GateError ExportStageResult → Type 0
IsStaged (ok r) = (r.state ≡ ExportState.quarantined) × (r.provenance.released_path ≡ none)
IsStaged (err e) = Unit

-- what `release_export` returns is released to a path, and its row needs no approval
abbrev pub IsReleased : ExportRow → Result GateError ExportStageResult → Type 0
IsReleased row (ok r) =
    (r.state ≡ ExportState.released)
    × (is_none r.provenance.released_path ≡ false)
    × (row.approval_required ≡ false)
IsReleased row (err e) = Unit

module _ (os : Platform) where
  quarantine-IsStaged :
      (id : String) (lab : LabRow) (storage : LabStorageRow) (source : String) (run : Option String)
      (a : Result GateError (ExportDecision × FilePath))
      → Yields IsStaged (quarantine os id lab storage source run a)
  unfolding quarantine
  quarantine-IsStaged id lab storage source run (err e) = Yields-pure IsStaged (err e) tt
  quarantine-IsStaged id lab storage source run (ok (decision, path)) =
      Yields-bind IsStaged _ _ λ _. Yields-bind IsStaged _ _ λ _.
        Yields-bind IsStaged _ _
          λ digest. Yields-bind IsStaged _ _ λ size. Yields-pure IsStaged _ (refl, refl)

  stage_export-IsStaged :
      (profiles : Profiles) (id : String) (lab : LabRow) (storage : LabStorageRow) (source : String)
      (run : Option String)
      → Yields IsStaged (stage_export os profiles id lab storage source run)
  unfolding stage_export
  stage_export-IsStaged profiles id lab storage source run =
      Yields-bind IsStaged _ _ (quarantine-IsStaged id lab storage source run)

  check_release-cleared :
      (disk : os.Disk) (row : ExportRow)
      → check_release os disk row ≡ ok tt
      → row.approval_required ≡ false
  unfolding check_release
  check_release-cleared disk row h = ground arith

  copy_out-IsReleased :
      (row : ExportRow) (storage : LabStorageRow) (c : Result GateError Unit)
      → (c ≡ ok tt → row.approval_required ≡ false)
      → Yields (IsReleased row) (copy_out os row storage c)
  unfolding copy_out
  copy_out-IsReleased row storage (err e) h = Yields-pure (IsReleased row) (err e) tt
  copy_out-IsReleased row storage (ok u) h =
      Yields-bind (IsReleased row) _ _ λ _.
        Yields-bind (IsReleased row) _ _ λ _. Yields-pure (IsReleased row) _ (refl, refl, h refl)

  release_export-IsReleased :
      (row : ExportRow) (storage : LabStorageRow)
      → Yields (IsReleased row) (release_export os row storage)
  unfolding release_export
  release_export-IsReleased row storage =
      Yields-bind-inspect (IsReleased row) (λ c. c ≡ ok tt → row.approval_required ≡ false) _ _
        (λ disk. check_release-cleared disk row) (copy_out-IsReleased row storage)

  quarantine-Sound :
      (id : String) (lab : LabRow) (storage : LabStorageRow) (source : String) (run : Option String)
      (a : Result GateError (ExportDecision × FilePath))
      → Keeps Sound (quarantine os id lab storage source run a)
  unfolding quarantine
  quarantine-Sound id lab storage source run (err e) = search keeps_rules
  quarantine-Sound id lab storage source run (ok (decision, path)) = search keeps_rules depth 10

  stage_export-Sound :
      (profiles : Profiles) (id : String) (lab : LabRow) (storage : LabStorageRow) (source : String)
      (run : Option String)
      → Keeps Sound (stage_export os profiles id lab storage source run)
  unfolding stage_export
  stage_export-Sound profiles id lab storage source run = search (keeps_rules, quarantine-Sound)

  copy_out-Sound :
      (row : ExportRow) (storage : LabStorageRow) (c : Result GateError Unit)
      → Keeps Sound (copy_out os row storage c)
  unfolding copy_out
  copy_out-Sound row storage (err e) = search keeps_rules
  copy_out-Sound row storage (ok u) = search keeps_rules depth 10

  release_export-Sound :
      (row : ExportRow) (storage : LabStorageRow) → Keeps Sound (release_export os row storage)
  unfolding release_export
  release_export-Sound row storage = search (keeps_rules, copy_out-Sound)

new_export-Sound :
    (now : ℕ) (id lab_id : String) (run : Option String) (r : ExportStageResult)
    → IsStaged (ok r)
    → ExportSound (new_export now id lab_id run r)
new_export-Sound now id lab_id run r h = ground arith

released_row-Sound :
    (row : ExportRow) (r : ExportStageResult)
    → IsReleased row (ok r)
    → ExportSound (released_row row r)
released_row-Sound row r h = ground arith

denied_row-Sound :
    (row : ExportRow) (reason : String) (r : ExportStageResult)
    → deny_export row reason ≡ ok r
    → ExportSound (denied_row row r)
unfolding deny_export
denied_row-Sound row reason r h = ground arith

check_run-Sound :
    {D : Type 0} (lab : LabRow) (run : Option String) → Keeps {D = D} Sound (check_run lab run)
unfolding check_run
check_run-Sound lab none = search keeps_rules
check_run-Sound lab (some id) = require_run-Sound id _ λ r _. search keeps_rules

gate_result-ok :
    (r : Result GateError ExportStageResult) (s : ExportStageResult)
    → gate_result r ≡ ok s
    → r ≡ ok s
gate_result-ok (ok a) s h = ground arith
gate_result-ok (err e) s h = absurd (cc)

outcome-IsStaged :
    (r : Result GateError ExportStageResult) (s : ExportStageResult)
    → IsStaged r
    → gate_result r ≡ ok s
    → IsStaged (ok s)
outcome-IsStaged (ok a) s q h = ground arith
outcome-IsStaged (err e) s q h = absurd (cc)

module _ (os : Platform) (app : App) (now : ℕ) where
  request_export_approval-Sound :
      (lab_id : String) (run : Option String) (id : String)
      → Keeps Sound (request_export_approval os app now lab_id run id)
  unfolding request_export_approval
  request_export_approval-Sound lab_id run id =
      search (sound_rules, write-Sound, record_approval_request-Sound)

  pub create_export-Sound :
      (lab_id source : String) (run : Option String) (requester : RequesterType)
      → Keeps Sound (create_export os app now lab_id source run requester)
  unfolding create_export
  create_export-Sound lab_id source run requester = Keeps-with_session _ (
      require_lab-Sound lab_id _ λ lab _. Keeps-bind _ _ (search sound_rules) λ storage.
        Keeps-bind _ _ (check_run-Sound lab run) λ _. Keeps-bind _ _ (search sound_rules) λ id.
          Keeps-bind _ _ (write-Sound os now _) λ _.
            Keeps-bind-Yields IsStaged _ _
              (stage_export-IsStaged os app.profiles id lab storage source run)
              (stage_export-Sound os app.profiles id lab storage source run)
              λ result q. Keeps-bind-lift (gate_result result) _ λ staged e.
                let s =
                  new_export-Sound now id lab.id run staged (outcome-IsStaged result staged q e) in
                search (sound_rules, write-Sound, request_export_approval-Sound) depth 15)

  finish_release-Sound :
      (row : ExportRow) (r : Result GateError ExportStageResult)
      → IsReleased row r
      → Keeps Sound (finish_release os app now row r)
  unfolding finish_release
  finish_release-Sound row (ok r) q =
      let s = released_row-Sound row r q in search (sound_rules, write-Sound) depth 10
  finish_release-Sound row (err (GateError.policy m)) q = search (sound_rules, write-Sound) depth 10
  finish_release-Sound row (err (GateError.source_not_found m)) q = search sound_rules
  finish_release-Sound row (err (GateError.state m)) q = search sound_rules
  finish_release-Sound row (err (GateError.uncaught m)) q = search sound_rules

  pub release_export_endpoint-Sound :
      (id : String) → Keeps Sound (release_export_endpoint os app now id)
  unfolding release_export_endpoint
  release_export_endpoint-Sound id = Keeps-with_session _ (
      require_export-Sound id _ λ row _. Keeps-bind _ _ (search sound_rules) λ storage.
        Keeps-bind-Yields (IsReleased row) _ _ (release_export-IsReleased os row storage)
          (release_export-Sound os row storage) (finish_release-Sound row))

  pub deny_export_endpoint-Sound :
      (id reason : String) → Keeps Sound (deny_export_endpoint os app now id reason)
  unfolding deny_export_endpoint
  deny_export_endpoint-Sound id reason = Keeps-with_session _ (
      require_export-Sound id _ λ row _.
        Keeps-bind-lift (gate_result (deny_export row reason)) _ λ denied e.
          let s =
            denied_row-Sound row reason denied (gate_result-ok (deny_export row reason) denied e) in
          search (sound_rules, write-Sound) depth 10)
