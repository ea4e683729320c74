-- ===== src/Db/Quiet.antt =====
-- Actions that commit nothing, and requests that commit nothing when they raise.
use labos.Prelude.{List, [], ◌∷◌, ◌++◌, if◌then◌else◌, ◌≡◌, refl, ◌∙◌, String, Bool, true, false}
use labos.Prelude.{Option, none, some, Result, ok, err, arith}
use labos.Db.Rows.{Db}
use labos.Db.Platform.{Platform}
use labos.Db.Session.{
  ApiError, World, Exec, pure, raise, gets, lift, inspect, or_raise, with_session, modify, commit,
  raise_if, on_disk, when, new_id, ◌>>=◌, nested, attempt, each,
}

pub record Quiet {D A : Type 0} (m : Exec D A) : Type 0 where
  pub quiet : (w : World D) → (m w).1.committed ≡ w.committed

module _ {D A : Type 0} where
  pub Quiet-pure : (a : A) → Quiet {D = D} (pure a)
  unfolding pure
  Quiet-pure a = record { quiet = λ w. refl }

  pub Quiet-raise : (e : ApiError) → Quiet {D = D} {A = A} (raise e)
  unfolding raise
  Quiet-raise e = record { quiet = λ w. refl }

  pub Quiet-gets : (f : Db → A) → Quiet {D = D} (gets f)
  unfolding gets
  Quiet-gets f = record { quiet = λ w. refl }

  pub Quiet-lift : (r : Result ApiError A) → Quiet {D = D} (lift r)
  unfolding lift
  Quiet-lift r = record { quiet = λ w. refl }

  pub Quiet-inspect : (f : D → A) → Quiet (inspect f)
  unfolding inspect
  Quiet-inspect f = record { quiet = λ w. refl }

  pub Quiet-or_raise : (o : Option A) (e : ApiError) → Quiet {D = D} (or_raise o e)
  unfolding or_raise
  Quiet-or_raise none e = Quiet-raise e
  Quiet-or_raise (some a) e = Quiet-pure a

  pub Quiet-if : (b : Bool) (m n : Exec D A) → Quiet m → Quiet n → Quiet (if b then m else n)
  Quiet-if true m n left right = left
  Quiet-if false m n left right = right

module _ {D : Type 0} where
  pub Quiet-modify : (f : Db → Db) → Quiet {D = D} (modify f)
  unfolding modify
  Quiet-modify f = record { quiet = λ w. refl }

  pub Quiet-raise_if : (b : Bool) (e : ApiError) → Quiet {D = D} (raise_if b e)
  unfolding raise_if
  Quiet-raise_if true e = Quiet-raise e
  Quiet-raise_if false e = Quiet-pure tt

  pub Quiet-when : (b : Bool) (m : Exec D Unit) → Quiet m → Quiet (when b m)
  unfolding when
  Quiet-when true m q = q
  Quiet-when false m q = Quiet-pure tt

  pub Quiet-on_disk : (f : D → Result String D) → Quiet (on_disk f)
  unfolding on_disk
  Quiet-on_disk f = record { quiet = λ w. same (f w.disk) w }
    where
      same : (r : Result String D) (w : World D) → (on_disk (λ _. r) w).1.committed ≡ w.committed
      same (ok d) w = refl
      same (err e) w = refl

pub Quiet-new_id : (os : Platform) → Quiet (new_id os)
unfolding new_id
Quiet-new_id os = record { quiet = λ w. refl }

module _ {D A B : Type 0} where
  resume-Quiet :
      (r : Result ApiError A) (f : A → Exec D B) → ((a : A) → Quiet (f a)) → Quiet (lift r >>= f)
  unfolding ◌>>=◌
  resume-Quiet (ok a) f q = record { quiet = λ w. (q a).quiet w }
  resume-Quiet (err e) f q = record { quiet = λ w. refl }

  pub Quiet-bind :
      (m : Exec D A) (f : A → Exec D B) → Quiet m → ((a : A) → Quiet (f a)) → Quiet (m >>= f)
  unfolding ◌>>=◌
  Quiet-bind m f qm qf = record {
    quiet = λ w. let (r, w') = m w in (resume-Quiet r f qf).quiet w' ∙ qm.quiet w;
  }

module _ {D A : Type 0} where
  pub Quiet-nested : (m : Exec D A) → Quiet m → Quiet (nested m)
  unfolding nested
  Quiet-nested m q = record { quiet = λ w. undone (m w).0 w (m w).1 ∙ q.quiet w }
    where
      undone :
          (r : Result ApiError A) (w w' : World D)
          → (nested (λ _. (r, w')) w).1.committed ≡ w'.committed
      undone (ok a) w w' = refl
      undone (err e) w w' = refl

  pub Quiet-attempt : (m : Exec D A) → Quiet m → Quiet (attempt m)
  unfolding attempt
  Quiet-attempt m q = record { quiet = q.quiet }

module _ {D R A : Type 0} (body : R → Exec D (List A)) where
  pub Quiet-each : ((row : R) → Quiet (body row)) → (rows : List R) → Quiet (each body rows)
  unfolding each
  Quiet-each q [] = Quiet-pure []
  Quiet-each q (row ∷ rows) =
      Quiet-bind _ _ (q row)
        λ first. Quiet-bind _ _ (Quiet-each q rows) λ rest. Quiet-pure (first ++ rest)

pub ruleset quiet_rules = (
  Quiet-pure, Quiet-raise, Quiet-gets, Quiet-lift, Quiet-inspect, Quiet-or_raise, Quiet-if,
  Quiet-modify, Quiet-raise_if, Quiet-when, Quiet-on_disk, Quiet-new_id, Quiet-bind, Quiet-nested,
  Quiet-attempt, Quiet-each,
)

-- what raises has committed nothing
pub record Atomic {D A : Type 0} (m : Exec D A) : Type 0 where
  pub atomic : (w : World D) (e : ApiError) → (m w).0 ≡ err e → (m w).1.committed ≡ w.committed

pub Atomic-last : {D : Type 0} → Atomic {D = D} commit
unfolding commit
Atomic-last = record { atomic = λ w e h. absurd (cc) }

module _ {D A : Type 0} where
  pub Atomic-commit : (a : A) → Atomic {D = D} (commit >>= λ _. pure a)
  unfolding ◌>>=◌
  Atomic-commit a = record { atomic = λ w e h. absurd (cc) }

  pub Atomic-raise : (e : ApiError) → Atomic {D = D} {A = A} (raise e)
  Atomic-raise e = record { atomic = λ w x h. (Quiet-raise e).quiet w }

  pub Atomic-with_session : (m : Exec D A) → Atomic m → Atomic (with_session m)
  unfolding with_session
  Atomic-with_session m q = record { atomic = q.atomic }

module _ {D A B : Type 0} where
  resume-Atomic :
      (r : Result ApiError A) (f : A → Exec D B) → ((a : A) → Atomic (f a)) → Atomic (lift r >>= f)
  unfolding ◌>>=◌
  resume-Atomic (ok a) f q = record { atomic = λ w. (q a).atomic w }
  resume-Atomic (err e) f q = record { atomic = λ w x h. refl }

  pub Atomic-bind :
      (m : Exec D A) (f : A → Exec D B) → Quiet m → ((a : A) → Atomic (f a)) → Atomic (m >>= f)
  unfolding ◌>>=◌
  Atomic-bind m f qm qf = record {
    atomic = λ w e h. let (r, w') = m w in (resume-Atomic r f qf).atomic w' e h ∙ qm.quiet w;
  }

-- a response that is answered after the commit
pub Atomic-answer :
    {D A : Type 0} (r : Result ApiError A)
    → (a : A) × (r ≡ ok a)
    → Atomic {D = D} (commit >>= λ _. lift r)
unfolding commit lift ◌>>=◌
Atomic-answer (ok a) h = record { atomic = λ w e raised. absurd (cc) }
Atomic-answer (err x) (a, h) = absurd (cc)

module _ {D A B : Type 0} (P : A → Type 0) where
  resume-Atomic_returned :
      (r : Result ApiError A) (f : A → Exec D B)
      → ((a : A) → r ≡ ok a → P a)
      → ((a : A) → P a → Atomic (f a))
      → Atomic (lift r >>= f)
  unfolding ◌>>=◌
  resume-Atomic_returned (ok a) f holds q = record { atomic = λ w. (q a (holds a refl)).atomic w }
  resume-Atomic_returned (err e) f holds q = record { atomic = λ w x h. refl }

  -- the rule for a part of whose results something is known
  pub Atomic-bind_returned :
      (m : Exec D A) (f : A → Exec D B)
      → Quiet m
      → ((w : World D) (a : A) → (m w).0 ≡ ok a → P a)
      → ((a : A) → P a → Atomic (f a))
      → Atomic (m >>= f)
  unfolding ◌>>=◌
  Atomic-bind_returned m f qm holds qf = record {
    atomic = λ w e h.
        let (r, w') = m w in (resume-Atomic_returned r f (holds w) qf).atomic w' e h ∙ qm.quiet w;
  }

module _ {D A B : Type 0} where
  drop :
      (r : Result ApiError A) (b : B) (w : World D) (e : ApiError)
      → ((lift r >>= λ _. pure b) w).0 ≡ err e
      → (((lift r >>= λ _. pure b) w).1.committed ≡ w.committed) × (r ≡ err e)
  unfolding ◌>>=◌
  drop (ok a) b w e h = absurd (cc)
  drop (err x) b w e h = ground arith

  -- a response that is dropped
  pub Atomic-drop : (m : Exec D A) (b : B) → Atomic m → Atomic (m >>= λ _. pure b)
  unfolding ◌>>=◌
  Atomic-drop m b q = record {
    atomic = λ w e h.
        let (r, w') = m w in let (same, raised) = drop r b w' e h in same ∙ q.atomic w e raised;
  }

pub ruleset atomic_rules =
    (quiet_rules, Atomic-commit, Atomic-last, Atomic-raise, Atomic-with_session, Atomic-bind)
