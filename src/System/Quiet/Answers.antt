-- ===== src/System/Quiet/Answers.antt =====
-- The snapshot endpoints can build the response that they answer with after the commit.
use mathlib.Core.Path.{subst}
use labos.Prelude.{
  ℕ, String, ◌≡◌, refl, sym, ap, ◌∙◌, Option, none, some, Result, ok, err, and_then, ok-injective,
}
use labos.Db.Rows.{LabRow, LabStorageRow, SnapshotRow}
use labos.Db.Platform.{Platform}
use labos.Db.Session.{ApiError, World, pure}
use labos.Db.Steps.{on_disk-ok_inverse, inspect-ok_inverse}
use labos.Storage.Metadata.{
  SnapshotError, unsupported_runtime, metadata_error, uncaught, SnapshotMetadata,
}
use labos.Storage.Snapshots.{take_snapshot, create_snapshot, restore_snapshot}
use labos.Storage.Snapshots.Restoring.{restore_snapshot-Restored}
use labos.Api.Snapshots.{
  SnapshotResponse, parsed_date, restored_date, described, snapshot_response, creation_failure,
  restore_failure,
}

-- a date that Python writes in ISO's form is one that it reads
pub record HasIsoDates (os : Platform) : Type 0 where
  pub fromisoformat-isoformat : (t : ℕ) → os.fromisoformat (os.isoformat t) ≡ some t

-- the metadata, if any, says of its restoring what is given
abbrev pub SaysRestored : Option String → Result SnapshotError SnapshotMetadata → Type 0
SaysRestored at (ok m) = m.restored_at ≡ at
SaysRestored at (err e) = Unit

module _ (os : Platform) where
  pub creation_failure-restored :
      (at : Option String) (created : Result SnapshotError SnapshotMetadata) (m : SnapshotMetadata)
      → SaysRestored at created
      → creation_failure created ≡ ok m
      → m.restored_at ≡ at
  creation_failure-restored at (ok m') m says h =
      ap (λ x. x.restored_at) (sym (ok-injective m' m h)) ∙ says
  creation_failure-restored at (err (unsupported_runtime x)) m says h = absurd (cc)
  creation_failure-restored at (err (metadata_error x)) m says h = absurd (cc)
  creation_failure-restored at (err (uncaught x)) m says h = absurd (cc)

  pub restore_failure-restored :
      (at : Option String) (restored : Result SnapshotError SnapshotMetadata) (m : SnapshotMetadata)
      → SaysRestored at restored
      → restore_failure restored ≡ ok m
      → m.restored_at ≡ at
  restore_failure-restored at (ok m') m says h =
      ap (λ x. x.restored_at) (sym (ok-injective m' m h)) ∙ says
  restore_failure-restored at (err (unsupported_runtime x)) m says h = absurd (cc)
  restore_failure-restored at (err (metadata_error x)) m says h = absurd (cc)
  restore_failure-restored at (err (uncaught x)) m says h = absurd (cc)

  take_snapshot-new :
      (now : ℕ) (id : String) (lab : LabRow) (storage : LabStorageRow) (run : Option String)
      (checked : Result SnapshotError Unit) (w v : World os.Disk)
      (created : Result SnapshotError SnapshotMetadata)
      → take_snapshot os now id lab storage run checked w ≡ (ok created, v)
      → SaysRestored none created
  unfolding take_snapshot pure
  take_snapshot-new now id lab storage run (err e) w v created h =
      subst (SaysRestored none) (ok-injective (err e) created (ap (λ p. p.0) h)) tt
  take_snapshot-new now id lab storage run (ok u) w v created h =
      let (d1, made, h1) = on_disk-ok_inverse (os.mkdir storage.snapshots_path) _ w v _ h in
      let (d2, archived, h2) = on_disk-ok_inverse (os.write_archive _ _) _ _ v _ h1 in
      let h3 = inspect-ok_inverse (λ disk. os.hash_file disk _) _ _ v _ h2 in
      let h4 = inspect-ok_inverse (λ disk. os.file_size disk _) _ _ v _ h3 in
      let (d5, stored, h5) = on_disk-ok_inverse (os.write_text _ _) _ _ v _ h4 in
      subst (SaysRestored none) (ok-injective (ok _) created (ap (λ p. p.0) h5)) refl

  pub create_snapshot-new :
      (now : ℕ) (id : String) (lab : LabRow) (storage : LabStorageRow) (run : Option String)
      (w : World os.Disk) (created : Result SnapshotError SnapshotMetadata)
      → (create_snapshot os now id lab storage run w).0 ≡ ok created
      → SaysRestored none created
  unfolding create_snapshot
  create_snapshot-new now id lab storage run w created h =
      take_snapshot-new now id lab storage run _ w _ created
        (ap (λ r. (r, (create_snapshot os now id lab storage run w).1)) h)

  pub restore_snapshot-dated :
      (now : ℕ) (row : SnapshotRow) (lab : LabRow) (storage : LabStorageRow) (w : World os.Disk)
      (restored : Result SnapshotError SnapshotMetadata)
      → (restore_snapshot os now row lab storage w).0 ≡ ok restored
      → SaysRestored (some (os.isoformat now)) restored
  restore_snapshot-dated now row lab storage w (err e) h = tt
  restore_snapshot-dated now row lab storage w (ok m) h =
      let found =
        restore_snapshot-Restored os now lab row storage m w _
          (ap (λ r. (r, (restore_snapshot os now row lab storage w).1)) h) in
      ap (λ x. x.restored_at) found.result

  abbrev answered :
      SnapshotRow → SnapshotMetadata → Result ApiError (Option ℕ) → Result ApiError SnapshotResponse
  answered row m date = and_then date λ restored_at. ok (described os row m restored_at)

  pub new_response :
      (row : SnapshotRow) (m : SnapshotMetadata)
      → m.restored_at ≡ none
      → (a : SnapshotResponse) × (snapshot_response os row (some m) ≡ ok a)
  unfolding snapshot_response
  new_response row m says =
      (described os row m none, ap (answered row m) (ap (restored_date os) says))

  pub dated_response :
      (row : SnapshotRow) (m : SnapshotMetadata) (now : ℕ)
      → HasIsoDates os
      → m.restored_at ≡ some (os.isoformat now)
      → (a : SnapshotResponse) × (snapshot_response os row (some m) ≡ ok a)
  unfolding snapshot_response
  dated_response row m now dates says = (
    described os row m (some now),
    ap (answered row m)
        (ap (restored_date os) says ∙ ap (parsed_date os) (dates.fromisoformat-isoformat now)),
  )
