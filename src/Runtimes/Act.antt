-- ===== src/Runtimes/Act.antt =====
-- An action that changes a state and returns, or raises with a text and may have changed it as well.
pub mod Ends
use labos.Prelude.{String, Bool, true, false, List, [], ◌∷◌, ◌≡◌, refl}
use labos.Prelude.{Result, ok, err}

abbrev pub Act : Type 0 → Type 0 → Type 0
Act S A = S → Result String A × S

module _ {S A : Type 0} where
  unfoldable pub pure : A → Act S A
  pure a s = (ok a, s)

  unfoldable pub raise : String → Act S A
  raise e s = (err e, s)

  unfoldable pub lift : Result String A → Act S A
  lift r s = (r, s)

infixl 5 ◌>>=◌ ◌>>◌
-- opening this opens what the other actions are made of
unfoldable pub ◌>>=◌ : {S A B : Type 0} → Act S A → (A → Act S B) → Act S B
unfolding pure raise lift
◌>>=◌ m f s = let (r, s') = m s in elim r [ ok a ↦ f a s' | err e ↦ (err e, s') ]

abbrev pub ◌>>◌ : {S B : Type 0} → Act S Unit → Act S B → Act S B
m >> k = m >>= λ _. k

-- `for row in rows: body(row)`
unfoldable pub each : {S R : Type 0} → (R → Act S Unit) → List R → Act S Unit
each body [] = pure tt
each body (row ∷ rows) = body row >> each body rows

-- `if test: ...`
unfoldable pub when : {S : Type 0} → Bool → Act S Unit → Act S Unit
when true m = m
when false m = pure tt

-- `try: m except Exception: pass`
unfoldable pub ignore : {S : Type 0} → Act S Unit → Act S Unit
ignore m s = (ok tt, (m s).1)
