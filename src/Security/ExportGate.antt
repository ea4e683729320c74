-- ===== src/Security/ExportGate.antt =====
-- labos/security/export_gate.py. What a method raises is a value, for the endpoints' `except`.
pub mod Sources
use labos.Prelude.{ℕ, String, Bool, not, ◌||◌, Option, none, some, [], ◌∷◌, ◌++◌}
use labos.Prelude.{Result, ok, err, and_then, reject_if, is_blank, ◌==◌}
use labos.Core.Enums.{ExportState, export_eq}
use labos.Policy.PosixPaths.{PosixPath, parse, relative_to, strip_parts}
use labos.Policy.HostMounts.{PolicyError, unknown_profile, invalid, type_error}
use labos.Policy.Engine.{Profiles, ExportDecision, validate_export}
use labos.Db.Rows.{FilePath, LabRow, LabStorageRow, ExportRow}
use labos.Db.Platform.{Platform}
use labos.Db.Session.{Exec, pure, inspect, on_disk, ◌>>=◌, ◌>>◌}
use labos.Storage.Allocator.{◌//◌}

-- `ExportSourceNotFoundError`, `ExportPolicyError`, `ExportStateError`, and what the policy engine
-- raises for a profile that it does not know
pub data GateError : Type 0 where
  source_not_found : String → GateError
  policy : String → GateError
  state : String → GateError
  uncaught : String → GateError

pub record ExportProvenance : Type 0 where
  pub lab_id : String
  pub run_id : Option String
  pub source_path : String
  pub quarantine_path : FilePath
  pub released_path : Option FilePath
  pub size_bytes : ℕ
  pub digest : String

pub record ExportStageResult : Type 0 where
  pub provenance : ExportProvenance
  pub approval_required : Bool
  pub state : ExportState
  pub denial_reason : Option String

abbrev pub guest_export_root : PosixPath
guest_export_root = record { root = 1; parts = "lab" ∷ "exports" ∷ [] }

-- `path.name`
abbrev pub path_name : FilePath → String
path_name [] = ""
path_name (p ∷ []) = p
path_name (p ∷ q ∷ rest) = path_name (q ∷ rest)

abbrev or_policy : {A : Type 0} → Option A → String → Result GateError A
or_policy none m = err (GateError.policy m)
or_policy (some a) m = ok a

abbrev gate_decision : Result PolicyError ExportDecision → Result GateError ExportDecision
gate_decision (ok d) = ok d
gate_decision (err (unknown_profile m)) = err (GateError.uncaught m)
gate_decision (err (invalid m)) = err (GateError.uncaught m)
gate_decision (err type_error) = err (GateError.uncaught "TypeError")

abbrev pub row_result :
    ExportRow → Option FilePath → ExportState → Option String → ExportStageResult
row_result row released_path outcome denial_reason = record {
  provenance = record {
    lab_id = row.lab_id;
    run_id = row.run_id;
    source_path = row.source_path;
    quarantine_path = row.quarantine_path;
    released_path = released_path;
    size_bytes = row.size_bytes;
    digest = row.sha256;
  };
  approval_required = row.approval_required;
  state = outcome;
  denial_reason = denial_reason;
}

unfoldable pub deny_export : ExportRow → String → Result GateError ExportStageResult
deny_export row reason =
    and_then
      (reject_if (row.state == ExportState.released) (GateError.state "export_already_released"))
      λ _.
        and_then
          (reject_if (row.state == ExportState.rejected)
            (GateError.state "export_already_rejected"))
          λ _.
            and_then (reject_if (is_blank reason) (GateError.state "export_denial_reason_required"))
              λ _. ok (row_result row none ExportState.rejected (some reason))

module _ (os : Platform) where
  unfoldable pub resolve_managed_source :
      os.Disk → LabStorageRow → String → Result GateError FilePath
  resolve_managed_source disk storage source_path =
      and_then
        (or_policy (relative_to (parse source_path) guest_export_root)
          "exports must use a managed guest export path")
        λ relative.
          let exports_root = os.resolve disk storage.exports_path in
          let source = os.resolve disk (exports_root ++ relative) in
          and_then
            (or_policy (strip_parts source exports_root) "export path escapes managed exports root")
            λ _. ok source

  -- the checks of `stage_export`, before it touches the disk
  unfoldable pub admit_source :
      Profiles
      → os.Disk
      → LabRow
      → LabStorageRow
      → String
      → Result GateError (ExportDecision × FilePath)
  unfolding resolve_managed_source
  admit_source profiles disk lab storage source_path =
      and_then (gate_decision (validate_export profiles lab.profile_name source_path)) λ decision.
        and_then (reject_if (not decision.allowed) (GateError.policy decision.reason)) λ _.
          and_then (resolve_managed_source disk storage source_path) λ source.
            and_then
              (reject_if (not (os.exists disk source) || not (os.is_file disk source))
                (GateError.source_not_found source_path))
              λ _. ok (decision, source)

  -- the copy into quarantine, and its provenance
  unfoldable pub quarantine :
      String
      → LabRow
      → LabStorageRow
      → String
      → Option String
      → Result GateError (ExportDecision × FilePath)
      → Exec os.Disk (Result GateError ExportStageResult)
  quarantine export_id lab storage source_path run_id (err e) = pure (err e)
  quarantine export_id lab storage source_path run_id (ok (decision, source)) = do
    let quarantine_dir = storage.quarantine_path // export_id
    let quarantine_path = quarantine_dir // path_name source
    on_disk (os.mkdir quarantine_dir)
    on_disk (os.copy2 source quarantine_path)
    digest ← inspect (λ disk. os.hash_file disk quarantine_path)
    size ← inspect (λ disk. os.file_size disk quarantine_path)
    pure (
        ok (record {
          provenance = record {
            lab_id = lab.id;
            run_id = run_id;
            source_path = source_path;
            quarantine_path = quarantine_path;
            released_path = none;
            size_bytes = size;
            digest = digest;
          };
          approval_required = decision.approval_required;
          state = ExportState.quarantined;
          denial_reason = none;
        }))

  unfoldable pub stage_export :
      Profiles
      → String
      → LabRow
      → LabStorageRow
      → String
      → Option String
      → Exec os.Disk (Result GateError ExportStageResult)
  unfolding admit_source quarantine
  stage_export profiles export_id lab storage source_path run_id = do
    admitted ← inspect (λ disk. admit_source profiles disk lab storage source_path)
    quarantine export_id lab storage source_path run_id admitted

  -- the checks of `release_export`
  unfoldable pub check_release : os.Disk → ExportRow → Result GateError Unit
  check_release disk row =
      and_then
        (reject_if (row.state == ExportState.rejected) (GateError.state "export_already_rejected"))
        λ _.
          and_then
            (reject_if (row.state == ExportState.released)
              (GateError.state "export_already_released"))
            λ _.
              and_then
                (reject_if row.approval_required (GateError.policy "export_approval_required"))
                λ _.
                  reject_if
                    (not (os.exists disk row.quarantine_path)
                      || not (os.is_file disk row.quarantine_path))
                    (GateError.source_not_found row.source_path)

  unfoldable pub copy_out :
      ExportRow
      → LabStorageRow
      → Result GateError Unit
      → Exec os.Disk (Result GateError ExportStageResult)
  copy_out row storage (err e) = pure (err e)
  copy_out row storage (ok u) = do
    let released_dir = storage.root_path // "released" // row.id
    let released_path = released_dir // path_name row.quarantine_path
    on_disk (os.mkdir released_dir)
    on_disk (os.copy2 row.quarantine_path released_path)
    pure (ok (row_result row (some released_path) ExportState.released none))

  unfoldable pub release_export :
      ExportRow → LabStorageRow → Exec os.Disk (Result GateError ExportStageResult)
  unfolding check_release copy_out
  release_export row storage = do
    checked ← inspect (λ disk. check_release disk row)
    copy_out row storage checked
