-- ===== src/Db/Table.antt =====
-- A table as the list of its rows: lookup by primary key, the write of a changed row, and
-- `order_by` as insertion.
use Prim.Native.String.{compare}
use package.text.Mathlib.Text.{is_lt}
use mathlib.Core.Path.{subst}
use mathlib.Core.Option.{some-injective}
use labos.Prelude.{
  ℕ, ltb, nat_eq, ◌||◌, ◌&&◌, String, Bool, true, ◌≡◌, refl, ◌≢◌, Option, none, some, List, [], ◌∷◌,
}
use labos.Prelude.{◌==◌, string_eq, if◌then◌else◌, All, keep, eq_iff, arith}
use labos.Prelude.{Bool-cases, inl, inr}
use labos.Db.Rows.{Keyed}

-- `order_by(created_at, id)`
abbrev pub earlier : ℕ → String → ℕ → String → Bool
earlier t i u j = ltb t u || t == u && is_lt (compare i j)

module _ {R : Type 0} where
  -- `select(...).order_by(...)`: insertion of each row behind those that come before it
  abbrev pub insert_by : (R → R → Bool) → R → List R → List R
  insert_by before r [] = r ∷ []
  insert_by before r (s ∷ rows) =
      let rest = insert_by before r rows in if before s r then s ∷ rest else r ∷ s ∷ rows

  unfoldable pub order_by : (R → R → Bool) → List R → List R
  order_by before [] = []
  order_by before (r ∷ rows) = insert_by before r (order_by before rows)

  -- `session.scalar(select(...).where(...))`: the first row that fits
  unfoldable pub first_where : (R → Bool) → List R → Option R
  first_where p [] = none
  first_where p (r ∷ rows) = let rest = first_where p rows in if p r then some r else rest

  pub first_where_test :
      (p : R → Bool) (rows : List R) {r : R} → first_where p rows ≡ some r → p r ≡ true
  unfolding first_where
  first_where_test p [] e = cc
  first_where_test p (s ∷ rows) {r} e = elim (Bool-cases (p s)) [
    | inl here ↦ subst (λ x. p x ≡ true) (some-injective s r (rw here at e)) here
    | inr there ↦ first_where_test p rows (rw there at e)
  ]

  -- `.first()`
  unfoldable pub first : List R → Option R
  first [] = none
  first (r ∷ rows) = some r

  module _ {ℓ} (P : R → Type ℓ) where
    pub All-first_where :
        (p : R → Bool) (rows : List R) {r : R} → All P rows → first_where p rows ≡ some r → P r
    unfolding first_where
    All-first_where p [] h e = absurd (cc)
    All-first_where p (s ∷ rows) {r} h e = elim (Bool-cases (p s)) [
      | inl here ↦ subst P (some-injective s r (rw here at e)) h.0
      | inr there ↦ All-first_where p rows h.1 (rw there at e)
    ]

    pub All-keep : (p : R → Bool) (rows : List R) → All P rows → All P (keep p rows)
    All-keep p [] h = tt
    All-keep p (r ∷ rows) h = elim (Bool-cases (p r)) [
      | inl taken ↦ rw taken (h.0, All-keep p rows h.1)
      | inr left ↦ rw left (All-keep p rows h.1)
    ]

    -- what a `where` clause lets through passes its test
    pub All-keep_test :
        (p : R → Bool) (rows : List R) → All P rows → All (λ r. P r × (p r ≡ true)) (keep p rows)
    All-keep_test p [] h = tt
    All-keep_test p (r ∷ rows) h = elim (Bool-cases (p r)) [
      | inl taken ↦ rw taken ((h.0, taken), All-keep_test p rows h.1)
      | inr left ↦ rw left (All-keep_test p rows h.1)
    ]

    pub All-first : (rows : List R) {r : R} → All P rows → first rows ≡ some r → P r
    unfolding first
    All-first [] h e = absurd (cc)
    All-first (s ∷ rows) {r} h e = subst P (some-injective s r e) h.0

    All-insert_by :
        (before : R → R → Bool) (r : R) (rows : List R)
        → P r
        → All P rows
        → All P (insert_by before r rows)
    All-insert_by before r [] h k = (h, tt)
    All-insert_by before r (s ∷ rows) h k = elim (Bool-cases (before s r)) [
      | inl first ↦ rw first (k.0, All-insert_by before r rows h k.1)
      | inr second ↦ rw second (h, k)
    ]

    pub All-order_by :
        (before : R → R → Bool) (rows : List R) → All P rows → All P (order_by before rows)
    unfolding order_by
    All-order_by before [] h = tt
    All-order_by before (r ∷ rows) h =
        All-insert_by before r (order_by before rows) h.0 (All-order_by before rows h.1)

module _ {R : Type 0} ⦃k : Keyed R⦄ where
  -- `session.get(Row, id)`
  unfoldable pub find : String → List R → Option R
  unfolding first_where
  find id rows = first_where (λ r. k.key r == id) rows

  -- a change of a row's columns reaches the row with its primary key
  unfoldable pub save : R → List R → List R
  save r [] = []
  save r (s ∷ rows) = (if k.key s == k.key r then r else s) ∷ save r rows

  pub key-find : (id : String) (rows : List R) {r : R} → find id rows ≡ some r → k.key r ≡ id
  unfolding find
  key-find id rows {r} e = (eq_iff (k.key r) id).0 (first_where_test _ rows e)

  pub find-save_self :
      (id : String) (rows : List R) {old : R} (r : R)
      → find id rows ≡ some old
      → k.key r ≡ id
      → find id (save r rows) ≡ some r
  unfolding find save
  find-save_self id [] r e h = absurd (cc)
  find-save_self id (s ∷ rows) {old} r e h = ground (
    arith,
    eq_iff (k.key s) id,
    eq_iff (k.key r) id,
    eq_iff (k.key s) (k.key r),
    find-save_self id rows {old = old} r,
  )

  pub find-save_ne :
      (id : String) (rows : List R) (r : R) → k.key r ≢ id → find id (save r rows) ≡ find id rows
  unfolding find save
  find-save_ne id [] r h = refl
  find-save_ne id (s ∷ rows) r h = ground (
    arith,
    eq_iff (k.key s) id,
    eq_iff (k.key r) id,
    eq_iff (k.key s) (k.key r),
    find-save_ne id rows r,
  )

  module _ {ℓ} (P : R → Type ℓ) where
    pub All-find : (id : String) (rows : List R) {r : R} → All P rows → find id rows ≡ some r → P r
    unfolding find
    All-find id rows h e = All-first_where P _ rows h e

    pub All-save : (r : R) (rows : List R) → P r → All P rows → All P (save r rows)
    unfolding save
    All-save r [] h all = tt
    All-save r (s ∷ rows) h all = elim (Bool-cases (k.key s == k.key r)) [
      | inl same ↦ rw same (h, All-save r rows h all.1)
      | inr other ↦ rw other (all.0, All-save r rows h all.1)
    ]
