-- ===== src/Workers/Reconciler/Sweep.antt =====
-- A loop of the reconciler that takes the late rows of a table and settles them one by one leaves no
-- late row (labos/workers/reconciler.py).
use mathlib.Core.Path.{subst}
use labos.Prelude.{
  String, ◌≡◌, refl, sym, ap, ◌∙◌, Bool, true, false, ◌⊎◌, inl, inr, List, [], ◌∷◌, ◌++◌, All, keep,
  map, contains,
}
use labos.Prelude.{Result, ok, err, string_eq, Bool-cases, eq_iff, ◌==◌, arith}
use labos.Db.Rows.{Db, Keyed}
use labos.Db.Table.{save, order_by}
use labos.Db.Order.{order_by-All}
use labos.Db.Steps.{bind-ok}
use labos.Db.Session.{ApiError, World, Exec, pure, lift, each, ◌>>=◌}

module _ {D A B : Type 0} where
  settled :
      (r : Result ApiError A) (g : A → B) (w : World D) → ((lift r >>= λ a. pure (g a)) w).1 ≡ w
  unfolding ◌>>=◌
  settled (ok a) g w = refl
  settled (err e) g w = refl

  -- a pure end of an action leaves its world
  last_pure : (m : Exec D A) (g : A → B) (w : World D) → ((m >>= λ a. pure (g a)) w).1 ≡ (m w).1
  unfolding ◌>>=◌
  last_pure m g w = settled (m w).0 g (m w).1

module _ {D R A : Type 0} (body : R → Exec D (List A)) where
  each_world :
      (row : R) (rows : List R) (w v : World D) (a : List A)
      → body row w ≡ (ok a, v)
      → (each body (row ∷ rows) w).1 ≡ (each body rows v).1
  unfolding each
  each_world row rows w v a h =
      ap (λ p. p.1)
        (bind-ok (body row) (λ first. each body rows >>= λ rest. pure (first ++ rest)) h)
      ∙ last_pure (each body rows) (λ rest. a ++ rest) v

module _ {R : Type 0} ⦃k : Keyed R⦄ (late : R → Bool) (settled_row : R → R) where
  abbrev keys : List R → List String
  keys = map (λ x. k.key x)

  -- a row that is not late, or is among some
  abbrev IsCovered : List R → R → Type 0
  IsCovered rows r = (late r ≡ false) ⊎ (contains (keys rows) (k.key r) ≡ true)

  uncovered : (table : List R) → All (IsCovered []) table → All (λ r. late r ≡ false) table
  uncovered [] h = tt
  uncovered (r ∷ table) h = (over h.0, uncovered table h.1)
    where
      over : IsCovered [] r → late r ≡ false
      over (inl done) = done
      over (inr listed) = absurd (cc)

  contains-All :
      (ids : List String) (rows : List R)
      → All (λ r. contains ids (k.key r) ≡ true) rows
      → (id : String) → All (λ r. contains (id ∷ ids) (k.key r) ≡ true) rows
  contains-All ids [] h id = tt
  contains-All ids (r ∷ rows) h id = (ground (arith, h.0), contains-All ids rows h.1 id)

  listed_self : (rows : List R) → All (λ r. contains (keys rows) (k.key r) ≡ true) rows
  listed_self [] = tt
  listed_self (r ∷ rows) = (
    ground (arith, eq_iff (k.key r) (k.key r)),
    contains-All (keys rows) rows (listed_self rows) (k.key r),
  )

  chosen :
      (rows table : List R)
      → All (λ r. contains (keys rows) (k.key r) ≡ true) (keep late table)
      → All (IsCovered rows) table
  chosen rows [] h = tt
  chosen rows (r ∷ table) h = elim (Bool-cases (late r)) [
    | inl is_late ↦ let c = rw is_late at h in (inr c.0, chosen rows table c.1)
    | inr fresh ↦ (inl fresh, chosen rows table (rw fresh at h))
  ]

  module _ (settled_key : (r : R) → k.key (settled_row r) ≡ k.key r)
      (settled_late : (r : R) → late (settled_row r) ≡ false) where
    save-IsCovered :
        (row : R) (rows table : List R)
        → All (IsCovered (row ∷ rows)) table
        → All (IsCovered rows) (save (settled_row row) table)
    unfolding save
    save-IsCovered row rows [] h = tt
    save-IsCovered row rows (r ∷ table) h = elim (Bool-cases (k.key r == k.key (settled_row row))) [
      | inl same ↦ rw same (inl (settled_late row), save-IsCovered row rows table h.1)
      | inr other ↦
          rw other
            (remaining h.0 (rw (settled_key row) at other), save-IsCovered row rows table h.1)
    ]
      where
        remaining : IsCovered (row ∷ rows) r → (k.key r == k.key row) ≡ false → IsCovered rows r
        remaining (inl done) other = inl done
        remaining (inr listed) other = inr (
            ground
              (arith, other, listed, eq_iff (k.key r) (k.key row), eq_iff (k.key row) (k.key r)))

    module _ {D : Type 0} (table : Db → List R) (body : R → Exec D (List String))
        (after : R → World D → World D)
        (run : (row : R) (w : World D) → body row w ≡ (ok (k.key row ∷ []), after row w))
        (saved : (row : R) (w : World D)
          → table (after row w).db ≡ save (settled_row row) (table w.db)) where
      IsSwept : World D → Type 0
      IsSwept v = All (λ r. late r ≡ false) (table v.db)

      nothing_left : (w : World D) → IsSwept w → IsSwept (each body [] w).1
      unfolding each pure
      nothing_left w h = h

      sweep :
          (rows : List R) (w : World D)
          → All (IsCovered rows) (table w.db)
          → IsSwept (each body rows w).1
      unfolding IsSwept
      sweep [] w h = nothing_left w (uncovered _ h)
      sweep (row ∷ rows) w h =
          subst IsSwept (sym (each_world body row rows w (after row w) _ (run row w))) (
            sweep rows (after row w)
              (subst (All (IsCovered rows)) (sym (saved row w)) (save-IsCovered row rows _ h)))

      -- the loop over the late rows in some order
      pub sweep-All :
          (before : R → R → Bool) (w : World D)
          → All
              (λ r. late r ≡ false)
              (table (each body (order_by before (keep late (table w.db))) w).1.db)
      unfolding IsSwept
      sweep-All before w = sweep _ w (
          chosen _ (table w.db) (
            order_by-All before _ (keep late (table w.db))
              (listed_self (order_by before (keep late (table w.db))))))
