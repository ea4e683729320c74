-- ===== src/Db/Order.antt =====
-- What `order_by` puts first.
use mathlib.Core.List.Permᴰ
use mathlib.Core.List.{Permᴰ}
use labos.Prelude.{refl, ℕ, ◌≤◌, ◌≡◌, Bool, true, false, List, [], ◌∷◌, All}
use labos.Prelude.{Bool-cases, inl, inr, arith}
use labos.Db.Table.{insert_by, order_by}

module _ {R : Type 0} (before : R → R → Bool) where
  module _ (P : R → Type 0) where
    insert_by-All : (r : R) (rows : List R) → All P (insert_by before r rows) → P r × All P rows
    insert_by-All r [] h = (h.0, tt)
    insert_by-All r (s ∷ rows) h = elim (Bool-cases (before s r)) [
      | inl ahead ↦
          let (here, there) = rw ahead at h in
          let (p, rest) = insert_by-All r rows there in (p, (here, rest))
      | inr behind ↦ rw behind at h
    ]

    -- what holds of all rows in order holds of all rows
    pub order_by-All : (rows : List R) → All P (order_by before rows) → All P rows
    unfolding order_by
    order_by-All [] h = tt
    order_by-All (r ∷ rows) h =
        let (p, rest) = insert_by-All r (order_by before rows) h in (p, order_by-All rows rest)

    All-insert_by : (r : R) (rows : List R) → P r → All P rows → All P (insert_by before r rows)
    All-insert_by r [] h k = (h, tt)
    All-insert_by r (s ∷ rows) h k = elim (Bool-cases (before s r)) [
      | inl ahead ↦ rw ahead (k.0, All-insert_by r rows h k.1)
      | inr behind ↦ rw behind (h, k)
    ]

  module _ (score : R → ℕ) (forward : (a b : R) → before a b ≡ true → score a ≤ score b)
      (backward : (a b : R) → before a b ≡ false → score b ≤ score a) where
    -- a first row whose score is the least
    abbrev pub Least : List R → Type 0
    Least [] = Unit
    Least (r ∷ rows) = All (λ s. score r ≤ score s) rows

    weaken :
        (m n : ℕ) (rows : List R)
        → m ≤ n
        → All (λ s. n ≤ score s) rows
        → All (λ s. m ≤ score s) rows
    weaken m n [] h k = tt
    weaken m n (s ∷ rows) h k = (omega arith, weaken m n rows h k.1)

    insert_by-Least : (r : R) (rows : List R) → Least rows → Least (insert_by before r rows)
    insert_by-Least r [] h = tt
    insert_by-Least r (s ∷ rows) h = elim (Bool-cases (before s r)) [
      | inl ahead ↦ rw ahead (All-insert_by (λ x. score s ≤ score x) r rows (forward s r ahead) h)
      | inr behind ↦
          rw behind (backward s r behind, weaken (score r) (score s) rows (backward s r behind) h)
    ]

    pub order_by-Least : (rows : List R) → Least (order_by before rows)
    unfolding order_by
    order_by-Least [] = tt
    order_by-Least (r ∷ rows) = insert_by-Least r (order_by before rows) (order_by-Least rows)

    -- each row's score is at most that of those behind it
    abbrev pub Ascending : List R → Type 0
    Ascending [] = Unit
    Ascending (r ∷ rows) = All (λ s. score r ≤ score s) rows × Ascending rows

    insert_by-Ascending :
        (r : R) (rows : List R) → Ascending rows → Ascending (insert_by before r rows)
    insert_by-Ascending r [] h = (tt, tt)
    insert_by-Ascending r (s ∷ rows) h = elim (Bool-cases (before s r)) [
      | inl ahead ↦ rw ahead (
        All-insert_by (λ x. score s ≤ score x) r rows (forward s r ahead) h.0,
        insert_by-Ascending r rows h.1,
      )
      | inr behind ↦
          let le = backward s r behind in
          rw behind ((le, weaken (score r) (score s) rows le h.0), h)
    ]

    pub order_by-Ascending : (rows : List R) → Ascending (order_by before rows)
    unfolding order_by
    order_by-Ascending [] = tt
    order_by-Ascending (r ∷ rows) =
        insert_by-Ascending r (order_by before rows) (order_by-Ascending rows)

  insert_by-Perm : (r : R) (rows : List R) → Permᴰ (insert_by before r rows) (r ∷ rows)
  insert_by-Perm r [] = Permᴰ.refl (r ∷ [])
  insert_by-Perm r (s ∷ rows) = elim (Bool-cases (before s r)) [
    | inl ahead ↦
        rw ahead (Permᴰ.trans (Permᴰ.cons refl (insert_by-Perm r rows)) (Permᴰ.swap refl refl))
    | inr behind ↦ rw behind (Permᴰ.refl (r ∷ s ∷ rows))
  ]

  -- a sort has the rows that it was given
  pub order_by-Perm : (rows : List R) → Permᴰ (order_by before rows) rows
  unfolding order_by
  order_by-Perm [] = Permᴰ.nil
  order_by-Perm (r ∷ rows) =
      Permᴰ.trans (insert_by-Perm r (order_by before rows)) (Permᴰ.cons refl (order_by-Perm rows))
