-- ===== src/Db/Keeps.antt =====
-- Invariants of requests: what holds of the session's view and of the database before an action
-- holds of both after it, also when the action raises. One rule for each way to build an action.
use mathlib.Core.Path.{subst}
use labos.Prelude.{
  List, [], ◌∷◌, ◌++◌, All, if◌then◌else◌, ◌≡◌, refl, String, Bool, true, false, Option, none, some,
  Result, ok, err,
}
use labos.Db.Rows.{Db}
use labos.Db.Platform.{Platform}
use labos.Db.Session.{
  ApiError, World, Exec, pure, raise, gets, lift, inspect, or_raise, with_session, modify, commit,
  raise_if, on_disk, when, new_id, ◌>>=◌, ◌>>◌, nested, attempt, each,
}

pub record Holds {D : Type 0} (P : Db → Type 0) (w : World D) : Type 0 where
  pub view : P w.db
  pub stored : P w.committed

pub record Keeps {D A : Type 0} (P : Db → Type 0) (m : Exec D A) : Type 0 where
  pub at : (w : World D) → Holds P w → Holds P (m w).1

module _ {D A : Type 0} {P : Db → Type 0} where
  pub Keeps-pure : (a : A) → Keeps {D = D} P (pure a)
  unfolding pure
  Keeps-pure a = record { at = λ w h. h }

  pub Keeps-raise : (e : ApiError) → Keeps {D = D} {A = A} P (raise e)
  unfolding raise
  Keeps-raise e = record { at = λ w h. h }

  pub Keeps-gets : (f : Db → A) → Keeps {D = D} P (gets f)
  unfolding gets
  Keeps-gets f = record { at = λ w h. h }

  pub Keeps-lift : (r : Result ApiError A) → Keeps {D = D} P (lift r)
  unfolding lift
  Keeps-lift r = record { at = λ w h. h }

  pub Keeps-inspect : (f : D → A) → Keeps P (inspect f)
  unfolding inspect
  Keeps-inspect f = record { at = λ w h. h }

  pub Keeps-or_raise : (o : Option A) (e : ApiError) → Keeps {D = D} P (or_raise o e)
  unfolding or_raise
  Keeps-or_raise none e = record { at = λ w h. h }
  Keeps-or_raise (some a) e = record { at = λ w h. h }

  pub Keeps-with_session : (m : Exec D A) → Keeps P m → Keeps P (with_session m)
  unfolding with_session
  Keeps-with_session m k = record {
    at = λ w h. record { view = (k.at w h).stored; stored = (k.at w h).stored };
  }

module _ {D : Type 0} {P : Db → Type 0} where
  pub Keeps-modify : (f : Db → Db) → ((d : Db) → P d → P (f d)) → Keeps {D = D} P (modify f)
  unfolding modify
  Keeps-modify f h = record { at = λ w k. record { view = h w.db k.view; stored = k.stored } }

  pub Keeps-commit : Keeps {D = D} P commit
  unfolding commit
  Keeps-commit = record { at = λ w h. record { view = h.view; stored = h.view } }

  pub Keeps-raise_if : (b : Bool) (e : ApiError) → Keeps {D = D} P (raise_if b e)
  unfolding raise_if
  Keeps-raise_if true e = record { at = λ w h. h }
  Keeps-raise_if false e = record { at = λ w h. h }

  pub Keeps-on_disk : (f : D → Result String D) → Keeps P (on_disk f)
  unfolding on_disk
  Keeps-on_disk f = record { at = λ w h. go (f w.disk) w h }
    where
      go : (r : Result String D) (w : World D) → Holds P w → Holds P (on_disk (λ _. r) w).1
      go (ok d) w h = record { view = h.view; stored = h.stored }
      go (err e) w h = h

pub Keeps-new_id : {P : Db → Type 0} (os : Platform) → Keeps P (new_id os)
unfolding new_id
Keeps-new_id os = record { at = λ w h. record { view = h.view; stored = h.stored } }

module _ {D A B : Type 0} {P : Db → Type 0} where
  -- the rest may use that `r` did not raise
  pub Keeps-bind-lift :
      (r : Result ApiError A) (f : A → Exec D B)
      → ((a : A) → r ≡ ok a → Keeps P (f a))
      → Keeps P (lift r >>= f)
  unfolding ◌>>=◌
  Keeps-bind-lift (ok a) f k = record { at = λ w h. (k a refl).at w h }
  Keeps-bind-lift (err e) f k = record { at = λ w h. h }

  pub Keeps-bind :
      (m : Exec D A) (f : A → Exec D B) → Keeps P m → ((a : A) → Keeps P (f a)) → Keeps P (m >>= f)
  unfolding ◌>>=◌
  Keeps-bind m f km kf = record {
    at = λ w h. let (r, w') = m w in (Keeps-bind-lift r f (λ a _. kf a)).at w' (km.at w h);
  }

  -- what is read from a good database is good
  pub Keeps-bind-gets :
      (Q : A → Type 0) (g : Db → A) (f : A → Exec D B)
      → ((d : Db) → P d → Q (g d))
      → ((a : A) → Q a → Keeps P (f a))
      → Keeps P (gets g >>= f)
  unfolding ◌>>=◌
  Keeps-bind-gets Q g f read k = record { at = λ w h. (k (g w.db) (read w.db h.view)).at w h }

  pub Keeps-bind-or_raise :
      (o : Option A) (e : ApiError) (f : A → Exec D B)
      → ((a : A) → o ≡ some a → Keeps P (f a))
      → Keeps P (or_raise o e >>= f)
  unfolding ◌>>=◌
  Keeps-bind-or_raise none e f k = record { at = λ w h. h }
  Keeps-bind-or_raise (some a) e f k = record { at = λ w h. (k a refl).at w h }

  -- a row that is looked up, and required to be there, is good
  pub Keeps-bind-found :
      (Q : A → Type 0) (g : Db → Option A) (e : ApiError) (f : A → Exec D B)
      → ((d : Db) → P d → (a : A) → g d ≡ some a → Q a)
      → ((a : A) → Q a → Keeps P (f a))
      → Keeps P ((gets g >>= λ o. or_raise o e) >>= f)
  unfolding ◌>>=◌
  Keeps-bind-found Q g e f read k = record {
    at = λ w h.
        (Keeps-bind-or_raise (g w.db) e f (λ a found. k a (read w.db h.view a found))).at w h;
  }

module _ {D B : Type 0} {P : Db → Type 0} where
  -- the rest may use that the test of a guard failed
  pub Keeps-bind-raise_if :
      (b : Bool) (e : ApiError) (m : Exec D B)
      → (b ≡ false → Keeps P m)
      → Keeps P (raise_if b e >> m)
  unfolding ◌>>=◌
  Keeps-bind-raise_if true e m k = record { at = λ w h. h }
  Keeps-bind-raise_if false e m k = record { at = λ w h. (k refl).at w h }

pub Keeps-if :
    {D A : Type 0} {P : Db → Type 0} (test : Bool) (body other : Exec D A)
    → (test ≡ true → Keeps P body)
    → (test ≡ false → Keeps P other)
    → Keeps P (if test then body else other)
Keeps-if true body other taken skipped = taken refl
Keeps-if false body other taken skipped = skipped refl

pub Keeps-when :
    {D : Type 0} {P : Db → Type 0} (b : Bool) (m : Exec D Unit)
    → (b ≡ true → Keeps P m)
    → Keeps P (when b m)
unfolding when
Keeps-when true m k = k refl
Keeps-when false m k = record { at = λ w h. h }

module _ {D A : Type 0} {P : Db → Type 0} where
  settle-nested :
      (r : Result ApiError A) (w w' : World D)
      → Holds P w
      → Holds P w'
      → Holds P (nested (λ _. (r, w')) w).1
  unfolding nested
  settle-nested (ok a) w w' h k = k
  settle-nested (err e) w w' h k = record { view = h.view; stored = k.stored }

  -- a nested transaction that fails is undone
  pub Keeps-nested : (m : Exec D A) → Keeps P m → Keeps P (nested m)
  unfolding nested
  Keeps-nested m k = record { at = λ w h. settle-nested (m w).0 w (m w).1 h (k.at w h) }

  pub Keeps-attempt : (m : Exec D A) → Keeps P m → Keeps P (attempt m)
  unfolding attempt
  Keeps-attempt m k = record { at = k.at }

module _ {D R A : Type 0} {P : Db → Type 0} (Q : R → Type 0) (body : R → Exec D (List A)) where
  -- a loop over good rows whose rounds keep an invariant keeps it
  pub Keeps-each :
      ((row : R) → Q row → Keeps P (body row))
      → (rows : List R) → All Q rows
      → Keeps P (each body rows)
  unfolding each
  Keeps-each k [] h = Keeps-pure []
  Keeps-each k (row ∷ rows) h =
      Keeps-bind _ _ (k row h.0)
        λ first. Keeps-bind _ _ (Keeps-each k rows h.1) λ rest. Keeps-pure (first ++ rest)

-- What an action returns, when it returns.
pub record Yields {D A : Type 0} (Q : A → Type 0) (m : Exec D A) : Type 0 where
  pub at : (w : World D) (a : A) → (m w).0 ≡ ok a → Q a

module _ {D A : Type 0} (Q : A → Type 0) where
  pub Yields-pure : (a : A) → Q a → Yields {D = D} Q (pure a)
  unfolding pure
  Yields-pure a q = record { at = λ w b e. subst (λ r. Good r) e q }
    where
      Good : Result ApiError A → Type 0
      Good (ok b) = Q b
      Good (err x) = Unit

module _ {D A B : Type 0} (Q : B → Type 0) where
  resume-Yields :
      (r : Result ApiError A) (w : World D) (f : A → Exec D B)
      → ((a : A) → Yields Q (f a))
      → (b : B) → ((lift r >>= f) w).0 ≡ ok b
      → Q b
  unfolding ◌>>=◌
  resume-Yields (ok a) w f k b e = (k a).at w b e
  resume-Yields (err x) w f k b e = absurd (cc)

  pub Yields-bind :
      (m : Exec D A) (f : A → Exec D B) → ((a : A) → Yields Q (f a)) → Yields Q (m >>= f)
  unfolding ◌>>=◌
  Yields-bind m f k = record { at = λ w b e. let (r, w') = m w in resume-Yields r w' f k b e }

  pub Yields-bind-inspect :
      (R : A → Type 0) (g : D → A) (f : A → Exec D B)
      → ((disk : D) → R (g disk))
      → ((a : A) → R a → Yields Q (f a))
      → Yields Q (inspect g >>= f)
  unfolding ◌>>=◌
  Yields-bind-inspect R g f read k = record { at = λ w b e. (k (g w.disk) (read w.disk)).at w b e }

module _ {D A B : Type 0} {P : Db → Type 0} where
  bind-Yields :
      (Q : A → Type 0) (r : Result ApiError A) (w : World D) (f : A → Exec D B)
      → ((a : A) → r ≡ ok a → Q a)
      → ((a : A) → Q a → Keeps P (f a))
      → Holds P w
      → Holds P ((lift r >>= f) w).1
  unfolding ◌>>=◌
  bind-Yields Q (ok a) w f y k h = (k a (y a refl)).at w h
  bind-Yields Q (err e) w f y k h = h

  pub Keeps-bind-Yields :
      (Q : A → Type 0) (m : Exec D A) (f : A → Exec D B)
      → Yields Q m
      → Keeps P m
      → ((a : A) → Q a → Keeps P (f a))
      → Keeps P (m >>= f)
  unfolding ◌>>=◌
  Keeps-bind-Yields Q m f y km kf = record {
    at = λ w h. let (r, w') = m w in bind-Yields Q r w' f (y.at w) kf (km.at w h);
  }

pub ruleset keeps_rules = (
  Keeps-pure, Keeps-raise, Keeps-gets, Keeps-lift, Keeps-inspect, Keeps-or_raise,
  Keeps-with_session, Keeps-commit, Keeps-raise_if, Keeps-on_disk, Keeps-new_id, Keeps-bind,
  Keeps-when,
)
