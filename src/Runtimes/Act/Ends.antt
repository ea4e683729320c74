-- ===== src/Runtimes/Act/Ends.antt =====
-- What holds of the state in which an action ends, if it returns and if it raises.
use labos.Prelude.{String, List, [], ◌∷◌, Result, ok, err}
use labos.Runtimes.Act.{Act, ◌>>=◌, each}

module _ {S A : Type 0} (P : A → S → Type 0) (Q : S → Type 0) where
  unfoldable pub Ends : Result String A × S → Type 0
  Ends (ok a, s) = P a s
  Ends (err e, s) = Q s

module _ {S A : Type 0} (Q : S → Type 0) where
  pub always-Ends : (x : Result String A × S) → Q x.1 → Ends (λ _. Q) Q x
  unfolding Ends
  always-Ends (ok a, s) h = h
  always-Ends (err e, s) h = h

module _ {S A : Type 0} (P : A → S → Type 0) (Q Q' : S → Type 0) where
  pub weaken-Ends : (x : Result String A × S) → Ends P Q x → ((s : S) → Q s → Q' s) → Ends P Q' x
  unfolding Ends
  weaken-Ends (ok a, s) h k = h
  weaken-Ends (err e, s) h k = k s h

module _ {S A B : Type 0} (P : A → S → Type 0) (R : B → S → Type 0) (Q : S → Type 0) where
  resumed :
      (f : A → Act S B) (x : Result String A × S)
      → Ends P Q x
      → ((a : A) (s : S) → P a s → Ends R Q (f a s))
      → Ends R Q (((λ _. x) >>= f) x.1)
  unfolding Ends ◌>>=◌
  resumed f (ok a, s) h k = k a s h
  resumed f (err e, s) h k = h

  pub bind-Ends :
      (m : Act S A) (f : A → Act S B) (s : S)
      → Ends P Q (m s)
      → ((a : A) (s' : S) → P a s' → Ends R Q (f a s'))
      → Ends R Q ((m >>= f) s)
  unfolding Ends ◌>>=◌
  bind-Ends m f s h k = resumed f (m s) h k

module _ {S R : Type 0} (Q : S → Type 0) where
  -- a loop whose rounds keep what holds
  pub each-Ends :
      (body : R → Act S Unit)
      → ((row : R) (s : S) → Q s → Ends (λ _. Q) Q (body row s))
      → (rows : List R) (s : S) → Q s
      → Ends (λ _. Q) Q (each body rows s)
  unfolding each Ends ◌>>=◌
  each-Ends body keeps [] s h = h
  each-Ends body keeps (row ∷ rows) s h =
      bind-Ends (λ _. Q) (λ _. Q) Q (body row) _ s (keeps row s h)
        λ _ s' h'. each-Ends body keeps rows s' h'
