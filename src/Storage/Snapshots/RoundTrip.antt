-- ===== src/Storage/Snapshots/RoundTrip.antt =====
-- A snapshot that was taken is found again (labos/storage/snapshots.py).
use Prim.Native.String.{◌++◌ as append}
use labos.Storage.Allocator.{◌//◌}
use labos.Prelude.{[], ◌∷◌, ◌++◌, refl}
use labos.Prelude.{
  ℕ, String, ◌≡◌, sym, ap, ◌∙◌, true, Option, some, List, Result, ok, err, ok-injective,
}
use labos.Policy.Values.{Item, lookup}
use labos.Db.Rows.{FilePath, LabRow, LabStorageRow, SnapshotRow}
use labos.Db.Platform.{Platform, object}
use labos.Db.Session.{ApiError, World, pure, inspect, ◌>>=◌}
use labos.Db.Steps.{bind-ok_inverse, on_disk-ok_inverse}
use labos.Storage.Metadata.{SnapshotError, SnapshotMetadata, to_dict, from_dict-to_dict}
use labos.Storage.Snapshots.{
  ends_tar_gz, archive_path, manifest_path, manifest_path_for, take_snapshot, create_snapshot,
  parse_manifest, found_manifest, read_manifest, load_metadata, caught_not,
}

-- What is used of the host: a text that was written is there and is read back, the metadata's JSON
-- text is read back as a dictionary that holds the same for each key, the archive's path is read
-- back from its text, and pathlib finds `.tar` and `.gz` to be the last two suffixes of `id.tar.gz`,
-- takes `.gz` off this name, and puts `.json` in place of the `.tar` of `id.tar`.
pub record IsFaithful (os : Platform) (id : String) (storage : LabStorageRow) (m : SnapshotMetadata)
    : Type 0 where
  pub read-write :
      (path : FilePath) (content : String) (disk disk' : os.Disk)
      → os.write_text path content disk ≡ ok disk'
      → (os.exists disk' path ≡ true) × (os.read_text disk' path ≡ ok content)
  pub loads-dumps :
      (read : List (String × Item)) × (os.loads (os.dumps (to_dict m)) ≡ some (object read))
      × ((key : String) → lookup key read ≡ lookup key (to_dict m))
  pub to_path-str_path :
      os.to_path (os.str_path (archive_path os storage id)) ≡ archive_path os storage id
  pub suffixes-archive :
      (front : List String) × (os.suffixes (storage.snapshots_path // append id ".tar.gz")
        ≡ front ++ ".tar" ∷ ".gz" ∷ [])
  pub with_suffix-archive :
      os.with_suffix (storage.snapshots_path // append id ".tar.gz") ""
      ≡ ok (storage.snapshots_path // append id ".tar")
  pub with_suffix-stem :
      os.with_suffix (storage.snapshots_path // append id ".tar") ".json"
      ≡ ok (storage.snapshots_path // append id ".json")

ends_tar_gz-append : (front : List String) → ends_tar_gz (front ++ ".tar" ∷ ".gz" ∷ []) ≡ true
ends_tar_gz-append [] = refl
ends_tar_gz-append (s ∷ []) = refl
ends_tar_gz-append (s ∷ t ∷ []) = refl
ends_tar_gz-append (s ∷ t ∷ u ∷ front) = ends_tar_gz-append (t ∷ u ∷ front)

module _ (os : Platform) (id : String) (lab : LabRow) (storage : LabStorageRow)
    (m : SnapshotMetadata) (laws : IsFaithful os id storage m) where
  -- the manifest is sought where it was written
  manifest_found :
      manifest_path_for os (archive_path os storage id) ≡ ok (manifest_path os storage id)
  unfolding manifest_path_for
  manifest_found =
      let (front, suffixes) = laws.suffixes-archive in
      rw (suffixes, ends_tar_gz-append front, laws.with_suffix-archive, laws.with_suffix-stem) refl

  parsed : parse_manifest os (os.loads (os.dumps (to_dict m))) ≡ ok m
  unfolding parse_manifest
  parsed =
      let (read, e, same) = laws.loads-dumps in
      ap (parse_manifest os) e ∙ from_dict-to_dict os m read same

  -- the manifest that is at the path is read
  read_run :
      (w : World os.Disk)
      → os.read_text w.disk (manifest_path os storage id) ≡ ok (os.dumps (to_dict m))
      → read_manifest os (manifest_path os storage id) true w ≡ (ok (ok (some m)), w)
  unfolding read_manifest ◌>>=◌
  read_run w h =
      ap (λ c. (caught_not c >>= λ s. pure (found_manifest os (parse_manifest os (os.loads s)))) w)
        h
      ∙ ap (λ r. (ok (found_manifest os r), w)) parsed

  load_run :
      (row : SnapshotRow) (w : World os.Disk)
      → row.backend_ref ≡ archive_path os storage id
      → os.exists w.disk (manifest_path os storage id) ≡ true
      → os.read_text w.disk (manifest_path os storage id) ≡ ok (os.dumps (to_dict m))
      → load_metadata os row w ≡ (ok (ok (some m)), w)
  unfolding load_metadata ◌>>=◌
  load_run row w here present content =
      ap
        (λ r.
          (caught_not r >>= λ path.
          inspect (λ disk. os.exists disk path) >>= λ b. read_manifest os path b)
            w)
        (ap (manifest_path_for os) here ∙ manifest_found)
      ∙ ap (λ b. read_manifest os (manifest_path os storage id) b w) present
      ∙ read_run w content

  -- what a snapshot that was taken leaves on the disk
  taken_run :
      (now : ℕ) (run : Option String) (checked : Result SnapshotError Unit) (w v : World os.Disk)
      → take_snapshot os now id lab storage run checked w ≡ (ok (ok m), v)
      → (m.backend_ref ≡ os.str_path (archive_path os storage id))
        × (os.exists v.disk (manifest_path os storage id) ≡ true)
        × (os.read_text v.disk (manifest_path os storage id) ≡ ok (os.dumps (to_dict m)))
  unfolding take_snapshot pure
  taken_run now run (err e) w v h =
      let k : ◌≡◌ {A = Result ApiError (Result SnapshotError SnapshotMetadata)} (ok (err e))
          (ok (ok m)) =
        ap (λ p. p.0) h in
      absurd (cc)
  taken_run now run (ok u) w v h =
      let (d1, made, h1) = on_disk-ok_inverse (os.mkdir storage.snapshots_path) _ w v _ h in
      let (d2, archived, h2) = on_disk-ok_inverse (os.write_archive _ _) _ _ v _ h1 in
      let (digest, e3, h3) = bind-ok_inverse (inspect _) _ _ v _ h2 in
      let (size, e4, h4) = bind-ok_inverse (inspect _) _ _ v _ h3 in
      let (d5, stored, h5) = on_disk-ok_inverse (os.write_text _ _) _ _ v _ h4 in
      let same = ok-injective _ m (ok-injective _ (ok m) (ap (λ p. p.0) h5)) in
      let (there, content) = laws.read-write _ _ _ d5 stored in
      (
        ap (λ x. x.backend_ref) (sym same),
        rw (ap (λ p. p.1.disk) h5) at there,
        rw (ap (λ p. p.1.disk) h5, same) at content,
      )

  -- On a host that reads back what it has written, a snapshot that was taken is found with its
  -- metadata by the row that is stored for it.
  pub load_metadata-create_snapshot :
      (now : ℕ) (run : Option String) (row : SnapshotRow) (w v : World os.Disk)
      → create_snapshot os now id lab storage run w ≡ (ok (ok m), v)
      → row.backend_ref ≡ os.to_path m.backend_ref
      → load_metadata os row v ≡ (ok (ok (some m)), v)
  unfolding create_snapshot
  load_metadata-create_snapshot now run row w v h e =
      let (at, there, content) = taken_run now run _ w v h in
      load_run row v (e ∙ ap os.to_path at ∙ laws.to_path-str_path) there content
