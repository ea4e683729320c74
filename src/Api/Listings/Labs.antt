-- ===== src/Api/Listings/Labs.antt =====
-- `list_labs` of labos/api/app.py answers where each lab has its storage.
use mathlib.Core.Path.{subst}
use mathlib.Core.List.{Permᴰ}
use labos.Db.Order.{Ascending, order_by-Ascending, order_by-Perm}
use labos.Prelude.{ℕ, ◌≤◌, arith}
use labos.Prelude.{
  String, ◌≡◌, refl, sym, ap, ◌∙◌, Bool, true, false, ◌||◌, some, List, [], ◌∷◌, map, keep, any,
  contains, All, ok, ◌==◌, string_eq, eq_iff, eq_refl, Bool-cases, inl, inr, Option-cases,
}
use labos.Db.Rows.{Db, LabRow, LabStorageRow}
use labos.Db.Table.{order_by, All-order_by}
use labos.Api.Responses.{LabResponse, lab_response}
use labos.Api.Listings.{lab_listed_before, storage_of, listed_labs, labs_of}

-- a row of the lab's storage is among some
abbrev pub HasStorage : List LabStorageRow → LabRow → Type 0
HasStorage storage lab = any (λ s. s.lab_id == lab.id) storage ≡ true

storage_of-found :
    (id : String) (rows : List LabStorageRow)
    → any (λ s. s.lab_id == id) rows ≡ true
    → (s : LabStorageRow) × (storage_of id rows ≡ some s)
unfolding storage_of
storage_of-found id [] h = absurd (cc)
storage_of-found id (row ∷ rest) h = elim (Option-cases (storage_of id rest)) [
  | inr (s, later) ↦ rw later (s, refl)
  | inl last ↦ elim (Bool-cases (row.lab_id == id)) [
    | inl this ↦ rw (last, this) (row, refl)
    | inr other ↦
        let (s, e) = storage_of-found id rest (rw other at h) in
        (let contrary = sym last ∙ e in absurd (cc))
  ]
]

-- a text that is not in a list is not one that is
unasked :
    (ids : List String) (id lab_id : String)
    → contains ids id ≡ true
    → contains ids lab_id ≡ false
    → (lab_id == id) ≡ false
unasked ids id lab_id h other = elim (Bool-cases (lab_id == id)) [
  | inr differs ↦ differs
  | inl same ↦
      (let contrary =
          sym (subst (λ x. contains ids x ≡ false) ((eq_iff lab_id id).0 same) other) ∙ h in
        absurd (cc))
]

any-keep :
    (ids : List String) (id : String) (rows : List LabStorageRow)
    → contains ids id ≡ true
    → any (λ s. s.lab_id == id) (keep (λ s. contains ids s.lab_id) rows)
      ≡ any (λ s. s.lab_id == id) rows
any-keep ids id [] h = refl
any-keep ids id (row ∷ rest) h = elim (Bool-cases (contains ids row.lab_id)) [
  | inl asked ↦ rw asked (ap (λ b. row.lab_id == id || b) (any-keep ids id rest h))
  | inr other ↦ rw (other, unasked ids id row.lab_id h other) (any-keep ids id rest h)
]

or_true : (b : Bool) → (b || true) ≡ true
or_true true = refl
or_true false = refl

more_ids :
    (id : String) (ids : List String) (rows : List LabRow)
    → All (λ r. contains ids r.id ≡ true) rows
    → All (λ r. contains (id ∷ ids) r.id ≡ true) rows
more_ids id ids [] h = tt
more_ids id ids (r ∷ rows) h =
    (ap (λ b. r.id == id || b) h.0 ∙ or_true (r.id == id), more_ids id ids rows h.1)

-- every row's identifier is among the rows' identifiers
ids-All : (rows : List LabRow) → All (λ r. contains (map (λ x. x.id) rows) r.id ≡ true) rows
ids-All [] = tt
ids-All (r ∷ rows) = (
  ap (λ b. b || contains (map (λ x. x.id) rows) r.id) (eq_refl r.id),
  more_ids r.id (map (λ x. x.id) rows) rows (ids-All rows),
)

-- the storage is among the rows that the query asks for
asked_storage :
    (ids : List String) (storage : List LabStorageRow) (rows : List LabRow)
    → All (λ r. contains ids r.id ≡ true) rows
    → All (HasStorage storage) rows
    → All (HasStorage (keep (λ s. contains ids s.lab_id) storage)) rows
asked_storage ids storage [] asked h = tt
asked_storage ids storage (r ∷ rows) asked h =
    (any-keep ids r.id storage asked.0 ∙ h.0, asked_storage ids storage rows asked.1 h.1)

-- the labs as listed, if each has storage
listed_labs-ok :
    (storage : List LabStorageRow) (rows : List LabRow)
    → All (HasStorage storage) rows
    → (responses : List LabResponse) × (listed_labs storage rows ≡ ok responses)
      × (map {B = String × ℕ} (λ r. (r.id, r.created_at)) responses
          ≡ map {B = String × ℕ} (λ r. (r.id, r.created_at)) rows)
unfolding listed_labs lab_response
listed_labs-ok storage [] h = ([], refl, refl)
listed_labs-ok storage (r ∷ rows) h =
    let (s, found) = storage_of-found r.id storage h.0 in
    let (rest, listed, same) = listed_labs-ok storage rows h.1 in
    (
      lab_response r s ∷ rest,
      rw (found, listed) refl,
      ap (λ listed_rows. (r.id, r.created_at) ∷ listed_rows) same,
    )

pub lab_listed_before-le :
    (a b : LabRow) → lab_listed_before a b ≡ true → a.created_at ≤ b.created_at
lab_listed_before-le a b h = ground arith

pub lab_listed_before-ge :
    (a b : LabRow) → lab_listed_before a b ≡ false → b.created_at ≤ a.created_at
lab_listed_before-ge a b h = ground arith

-- If each lab has a row of its storage, the list of labs is answered: it has each lab of the
-- database once, with its time of creation, and none was created later than one listed behind it.
pub labs_of-ok :
    (d : Db)
    → All (HasStorage d.lab_storage) d.labs
    → (responses : List LabResponse) × (rows : List LabRow) × (labs_of d ≡ ok responses)
      × (map {B = String × ℕ} (λ r. (r.id, r.created_at)) responses
          ≡ map {B = String × ℕ} (λ r. (r.id, r.created_at)) rows)
      × Permᴰ rows d.labs
      × Ascending lab_listed_before
          (λ r. r.created_at)
          lab_listed_before-le
          lab_listed_before-ge
          rows
unfolding labs_of
labs_of-ok d h =
    let rows = order_by lab_listed_before d.labs in
    let (responses, listed, same) = listed_labs-ok _ rows (
      asked_storage (map (λ r. r.id) rows) d.lab_storage rows (ids-All rows)
        (All-order_by (HasStorage d.lab_storage) lab_listed_before d.labs h)) in
    (
      responses,
      rows,
      listed,
      same,
      order_by-Perm lab_listed_before d.labs,
      order_by-Ascending lab_listed_before (λ r. r.created_at) lab_listed_before-le
          lab_listed_before-ge d.labs,
    )
