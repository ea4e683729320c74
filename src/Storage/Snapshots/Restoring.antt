-- ===== src/Storage/Snapshots/Restoring.antt =====
-- What has been checked when a snapshot was restored (labos/storage/snapshots.py).
use labos.Prelude.{ℕ, String, ◌≡◌, refl, sym, ap, Bool, true, false, any, Option, none, some, List}
use labos.Prelude.{
  Result, ok, err, ok-injective, and_then-ok, reject_if-ok, not, All, [], ◌∷◌, ◌++◌,
}
use labos.Prelude.{◌⊎◌, Option-cases, inl, inr, eq_iff, ◌==◌, string_eq}
use labos.Policy.Models.{RuntimeClass, runtime_class_value}
use labos.Policy.PosixPaths.{strip_parts, strip_parts-some}
use labos.Db.Rows.{FilePath, LabRow, LabStorageRow, SnapshotRow}
use labos.Db.Platform.{Platform}
use labos.Db.Session.{ApiError, World, Exec, pure, ◌>>=◌}
use labos.Db.Steps.{bind-ok_inverse, inspect-ok_inverse, on_disk-ok_inverse}
use labos.Storage.Metadata.{SnapshotError, SnapshotMetadata}
use labos.Storage.Snapshots.{
  ensure_runtime_supported, parent, load_metadata, restored_metadata, is_unsafe, clear_directory,
  settle_workspace, extract, unpack, check_runtimes, restore_checked, restore_loaded,
  restore_snapshot, caught_not,
}

-- no result of the manager is both
clash :
    {A : Type 0} (e : SnapshotError) (a : A)
    → ◌≡◌ {A = Result ApiError (Result SnapshotError A)} (ok (err e)) (ok (ok a))
    → ⊥
clash e a h = cc

caught_not-ok_inverse :
    {D A B : Type 0} (r : Result String A) (f : A → Exec D B) (w v : World D) (b : B)
    → (caught_not r >>= f) w ≡ (ok b, v)
    → (a : A) × (r ≡ ok a) × (f a w ≡ (ok b, v))
unfolding ◌>>=◌
caught_not-ok_inverse (ok a) f w v b h = (a, refl, h)
caught_not-ok_inverse (err e) f w v b h = absurd (cc)

-- the runtime that is supported
supported_container :
    (runtime_class : String)
    → ensure_runtime_supported runtime_class ≡ ok tt
    → runtime_class ≡ "container"
unfolding ensure_runtime_supported
supported_container runtime_class h =
    (eq_iff runtime_class "container").0
      (negated (runtime_class == "container") (reject_if-ok _ _ tt h))
  where
    negated : (b : Bool) → not b ≡ false → b ≡ true
    negated true e = refl
    negated false e = absurd (cc)

container_lab :
    (c : RuntimeClass) → runtime_class_value c ≡ "container" → c ≡ RuntimeClass.container
container_lab RuntimeClass.container h = refl
container_lab RuntimeClass.microvm h = absurd (cc)

check_runtimes-ok :
    (os : Platform) (m : SnapshotMetadata) (lab : LabRow)
    → check_runtimes os m lab ≡ ok tt
    → (m.runtime_class ≡ "container") × (lab.runtime_class ≡ RuntimeClass.container)
check_runtimes-ok os m lab h =
    let (u, snapshot, h1) = and_then-ok (ensure_runtime_supported m.runtime_class) _ h in
    (
      supported_container m.runtime_class snapshot,
      container_lab lab.runtime_class (supported_container _ h1),
    )

-- a path below a directory, or the root, which is its own parent
abbrev pub IsParent : FilePath → FilePath → Type 0
IsParent path directory =
    ((path ≡ []) × (directory ≡ [])) ⊎ ((name : String) × (path ≡ directory ++ name ∷ []))

parent-IsParent : (path : FilePath) → IsParent path (parent path)
parent-IsParent [] = inl (refl, refl)
parent-IsParent (p ∷ []) = inr (p, refl)
parent-IsParent (p ∷ q ∷ rest) = elim (parent-IsParent (q ∷ rest)) [
  | inl root ↦ (let e = root.0 in absurd (cc))
  | inr (name, e) ↦ inr (name, ap (λ path. p ∷ path) e)
]

module _ (os : Platform) (now : ℕ) (lab : LabRow) where
  -- a path is a root or below it
  abbrev pub IsUnder : FilePath → FilePath → Type 0
  IsUnder root path = (below : FilePath) × (path ≡ root ++ below)

  -- An archive was extracted to the parent of a workspace, as the host resolved it then, and each
  -- member, as the host resolved it then, stayed under that parent.
  pub record Extracted (archive workspace : FilePath) : Type 0 where
    pub before : os.Disk
    pub after : os.Disk
    pub names : List String
    pub directory : FilePath
    pub is_parent : IsParent workspace directory
    pub listed : os.member_names before archive ≡ ok names
    pub inside :
        All
          (λ name.
            IsUnder
              (os.resolve before directory)
              (os.resolve before (os.join_path (os.resolve before directory) name)))
          names
    pub extracted : os.extract_all archive (os.resolve before directory) before ≡ ok after

  safe-All :
      (disk : os.Disk) (root : FilePath) (names : List String)
      → any (is_unsafe os disk root) names ≡ false
      → All (λ name. IsUnder root (os.resolve disk (os.join_path root name))) names
  safe-All disk root [] h = tt
  safe-All disk root (name ∷ names) h =
      elim (Option-cases (strip_parts (os.resolve disk (os.join_path root name)) root)) [
        | inl outside ↦ (let h' = rw outside at h in absurd (cc))
        | inr (rest, stripped) ↦ (
          (rest, strip_parts-some _ root rest stripped),
          safe-All disk root names (rw stripped at h),
        )
      ]

  extract-Extracted :
      (workspace : FilePath) (m restored : SnapshotMetadata) (names : List String)
      (w v : World os.Disk)
      → os.member_names w.disk (os.to_path m.backend_ref) ≡ ok names
      → (unsafe : Bool)
      → any (is_unsafe os w.disk (os.resolve w.disk (parent workspace))) names ≡ unsafe
      → extract os now lab workspace (os.resolve w.disk (parent workspace)) m unsafe w
        ≡ (ok (ok restored), v)
      → Extracted (os.to_path m.backend_ref) workspace × (restored ≡ restored_metadata os now lab m)
  unfolding extract pure
  extract-Extracted workspace m restored names w v listed true safe h =
      absurd (clash _ restored (ap (λ p. p.0) h))
  extract-Extracted workspace m restored names w v listed false safe h =
      let (d1, extracted, h1) = on_disk-ok_inverse (os.extract_all _ _) _ w v _ h in
      let (u, e2, h2) = bind-ok_inverse (settle_workspace os workspace) _ _ v _ h1 in
      let (d3, written, h3) = on_disk-ok_inverse (os.write_text _ _) _ _ v _ h2 in
      (
        record {
          before = w.disk;
          after = d1;
          names = names;
          directory = parent workspace;
          is_parent = parent-IsParent workspace;
          listed = listed;
          inside = safe-All w.disk _ names safe;
          extracted = extracted;
        },
        sym (ok-injective _ restored (ok-injective _ (ok restored) (ap (λ p. p.0) h3))),
      )

  -- What holds of a restored snapshot: what was loaded, that the snapshot and the target lab are of
  -- containers, how the archive was extracted beside the lab's workspace, and what is answered.
  pub record Restored (row : SnapshotRow) (storage : LabStorageRow) (restored : SnapshotMetadata)
      (w : World os.Disk) : Type 0 where
    pub metadata : SnapshotMetadata
    pub loaded : (load_metadata os row w).0 ≡ ok (ok (some metadata))
    pub container_snapshot : metadata.runtime_class ≡ "container"
    pub container_target : lab.runtime_class ≡ RuntimeClass.container
    pub safe : Extracted (os.to_path metadata.backend_ref) storage.workspace_path
    pub result : restored ≡ record metadata {
      state = "restored";
      restored_at = some (os.isoformat now);
      restored_lab_id = some lab.id;
    }

  unpack-Extracted :
      (workspace : FilePath) (m restored : SnapshotMetadata) (present : Bool) (w v : World os.Disk)
      → unpack os now lab workspace m present w ≡ (ok (ok restored), v)
      → Extracted (os.to_path m.backend_ref) workspace × (restored ≡ restored_metadata os now lab m)
  unfolding unpack pure
  unpack-Extracted workspace m restored false w v h = absurd (clash _ restored (ap (λ p. p.0) h))
  unpack-Extracted workspace m restored true w v h =
      let (d1, made, h1) = on_disk-ok_inverse (os.mkdir workspace) _ w v _ h in
      let (u, e2, h2) = bind-ok_inverse (clear_directory os workspace) _ _ v _ h1 in
      let h3 = inspect-ok_inverse (λ disk. os.resolve disk (parent workspace)) _ _ v _ h2 in
      let h4 =
        inspect-ok_inverse (λ disk. os.member_names disk (os.to_path m.backend_ref)) _ _ v _ h3 in
      let (names, listed, h5) = caught_not-ok_inverse (os.member_names _ _) _ _ v _ h4 in
      let h6 = inspect-ok_inverse (λ disk. any (is_unsafe os disk _) names) _ _ v _ h5 in
      extract-Extracted workspace m restored names _ v listed _ refl h6

  restore_checked-Extracted :
      (storage : LabStorageRow) (m restored : SnapshotMetadata)
      (checked : Result SnapshotError Unit) (w v : World os.Disk)
      → restore_checked os now lab storage m checked w ≡ (ok (ok restored), v)
      → (checked ≡ ok tt)
        × Extracted (os.to_path m.backend_ref) storage.workspace_path
        × (restored ≡ restored_metadata os now lab m)
  unfolding restore_checked pure
  restore_checked-Extracted storage m restored (err e) w v h =
      absurd (clash _ restored (ap (λ p. p.0) h))
  restore_checked-Extracted storage m restored (ok u) w v h =
      let h1 = inspect-ok_inverse (λ disk. os.exists disk (os.to_path m.backend_ref)) _ _ v _ h in
      let (safe, result) = unpack-Extracted storage.workspace_path m restored _ _ v h1 in
      (refl, safe, result)

  restore_loaded-Restored :
      (row : SnapshotRow) (storage : LabStorageRow) (restored : SnapshotMetadata)
      (loaded : Result SnapshotError (Option SnapshotMetadata)) (w w' v : World os.Disk)
      → (load_metadata os row w).0 ≡ ok loaded
      → restore_loaded os now lab storage loaded w' ≡ (ok (ok restored), v)
      → Restored row storage restored w
  unfolding restore_loaded pure
  restore_loaded-Restored row storage restored (err e) w w' v e0 h =
      absurd (clash _ restored (ap (λ p. p.0) h))
  restore_loaded-Restored row storage restored (ok none) w w' v e0 h =
      absurd (clash _ restored (ap (λ p. p.0) h))
  restore_loaded-Restored row storage restored (ok (some m)) w w' v e0 h =
      let (checked, safe, result) = restore_checked-Extracted storage m restored _ w' v h in
      let (snapshot, target) = check_runtimes-ok os m lab checked in
      record {
        metadata = m;
        loaded = e0;
        container_snapshot = snapshot;
        container_target = target;
        safe = safe;
        result = result;
      }

  -- A snapshot is restored only from a manifest that was loaded, of a container's snapshot and into
  -- a container's lab, and from an archive that was extracted to the parent of the lab's workspace
  -- when each of its members stayed under that parent, as the host resolves them; what is answered
  -- is the metadata of the manifest, marked as restored at that time into that lab.
  pub restore_snapshot-Restored :
      (row : SnapshotRow) (storage : LabStorageRow) (restored : SnapshotMetadata)
      (w v : World os.Disk)
      → restore_snapshot os now row lab storage w ≡ (ok (ok restored), v)
      → Restored row storage restored w
  unfolding restore_snapshot
  restore_snapshot-Restored row storage restored w v h =
      let (loaded, e, h1) = bind-ok_inverse (load_metadata os row) _ w v _ h in
      restore_loaded-Restored row storage restored loaded w _ v e h1
