-- ===== src/Security/ExportGate/Sources.antt =====
-- Which files an export may take (`stage_export` and `_resolve_managed_source` of
-- labos/security/export_gate.py).
use labos.Prelude.{
  String, ◌≡◌, refl, sym, ap, ◌∙◌, Bool, true, false, not, ◌||◌, Option, none, some, ◌++◌,
}
use labos.Prelude.{Result, ok, err, reject_if, and_then-ok, reject_if-ok, ok-injective}
use labos.Policy.PosixPaths.{parse, strip_parts, strip_parts-some, relative_to}
use labos.Policy.HostMounts.{PolicyError, unknown_profile, invalid, type_error}
use labos.Policy.Engine.{Profiles, ExportDecision, validate_export}
use labos.Db.Rows.{FilePath, LabRow, LabStorageRow}
use labos.Db.Platform.{Platform}
use labos.Security.ExportGate.{
  GateError, guest_export_root, or_policy, gate_decision, resolve_managed_source, admit_source,
}

not-false : (b : Bool) → not b ≡ false → b ≡ true
not-false true h = refl
not-false false h = absurd (cc)

not_or : (b c : Bool) → (not b || not c) ≡ false → (b ≡ true) × (c ≡ true)
not_or true true h = (refl, refl)
not_or true false h = absurd (cc)
not_or false c h = absurd (cc)

or_policy-ok : {A : Type 0} (o : Option A) (m : String) (a : A) → or_policy o m ≡ ok a → o ≡ some a
or_policy-ok none m a h = absurd (cc)
or_policy-ok (some b) m a h = cc

module _ (os : Platform) (disk : os.Disk) (storage : LabStorageRow) where
  -- a path inside the lab's exports, as the host resolves it
  abbrev pub IsManaged : FilePath → Type 0
  IsManaged source = (rest : FilePath) × (source ≡ os.resolve disk storage.exports_path ++ rest)

  resolve_managed_source-IsManaged :
      (path : String) (source : FilePath)
      → resolve_managed_source os disk storage path ≡ ok source
      → IsManaged source
  unfolding resolve_managed_source
  resolve_managed_source-IsManaged path source h =
      let (relative, guest, h1) =
        and_then-ok
          (or_policy (relative_to (parse path) guest_export_root)
            "exports must use a managed guest export path")
          _ h in
      let root = os.resolve disk storage.exports_path in
      let (rest, stripped, h2) =
        and_then-ok
          (or_policy (strip_parts (os.resolve disk (root ++ relative)) root)
            "export path escapes managed exports root")
          _ h1 in
      let e = ok-injective _ source h2 in
      (rest, sym e ∙ strip_parts-some _ root rest (or_policy-ok _ _ rest stripped))

  -- What the gate has checked before it copies a file.
  pub record Admitted (profiles : Profiles) (lab : LabRow) (path : String)
      (decision : ExportDecision) (source : FilePath) : Type 0 where
    pub decided : validate_export profiles lab.profile_name path ≡ ok decision
    pub allowed : decision.allowed ≡ true
    pub managed : IsManaged source
    pub present : os.exists disk source ≡ true
    pub file : os.is_file disk source ≡ true

  gate_decision-ok :
      (r : Result PolicyError ExportDecision) (d : ExportDecision)
      → gate_decision r ≡ ok d
      → r ≡ ok d
  gate_decision-ok (ok e) d h = cc
  gate_decision-ok (err (unknown_profile m)) d h = absurd (cc)
  gate_decision-ok (err (invalid m)) d h = absurd (cc)
  gate_decision-ok (err type_error) d h = absurd (cc)

  -- A file that is admitted to an export was accepted by the policy of the lab's profile, lies in the
  -- lab's exports as the host resolves both paths, exists, and is a file.
  pub admit_source-Admitted :
      (profiles : Profiles) (lab : LabRow) (path : String) (decision : ExportDecision)
      (source : FilePath)
      → admit_source os profiles disk lab storage path ≡ ok (decision, source)
      → Admitted profiles lab path decision source
  unfolding admit_source
  admit_source-Admitted profiles lab path decision source h =
      let (d, hd, h1) =
        and_then-ok (gate_decision (validate_export profiles lab.profile_name path)) _ h in
      let (u, hu, h2) = and_then-ok (reject_if (not d.allowed) (GateError.policy d.reason)) _ h1 in
      let (s, hs, h3) = and_then-ok (resolve_managed_source os disk storage path) _ h2 in
      let (v, hv, h4) =
        and_then-ok
          (reject_if (not (os.exists disk s) || not (os.is_file disk s))
            (GateError.source_not_found path))
          _ h3 in
      let e = ok-injective (d, s) (decision, source) h4 in
      let missing = reject_if-ok _ _ v hv in
      record {
        decided = gate_decision-ok _ decision (rw (ap (λ x. x.0) e) at hd);
        allowed = rw (← ap (λ x. x.0) e) (not-false _ (reject_if-ok _ _ u hu));
        managed = resolve_managed_source-IsManaged path source (rw (ap (λ x. x.1) e) at hs);
        present = rw (← ap (λ x. x.1) e) (not_or _ _ missing).0;
        file = rw (← ap (λ x. x.1) e) (not_or _ _ missing).1;
      }
