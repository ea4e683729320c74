-- ===== src/Db/Aside.antt =====
-- Actions that work on the disk alone: they leave the session's view and the database as they were.
use mathlib.Core.Path.{subst}
use labos.Prelude.{◌≡◌, refl, sym, ◌∙◌, String, Bool, true, false, Result, ok, err, if◌then◌else◌}
use labos.Db.Rows.{Db}
use labos.Db.Session.{ApiError, World, Exec, pure, lift, inspect, on_disk, when, ◌>>=◌}
use labos.Db.Keeps.{Keeps}
use labos.Db.Quiet.{Quiet}

pub record Aside {D A : Type 0} (m : Exec D A) : Type 0 where
  pub view : (w : World D) → (m w).1.db ≡ w.db
  pub stored : (w : World D) → (m w).1.committed ≡ w.committed

module _ {D A : Type 0} where
  pub Aside-pure : (a : A) → Aside {D = D} (pure a)
  unfolding pure
  Aside-pure a = record { view = λ w. refl; stored = λ w. refl }

  pub Aside-lift : (r : Result ApiError A) → Aside {D = D} (lift r)
  unfolding lift
  Aside-lift r = record { view = λ w. refl; stored = λ w. refl }

  pub Aside-inspect : (f : D → A) → Aside (inspect f)
  unfolding inspect
  Aside-inspect f = record { view = λ w. refl; stored = λ w. refl }

  pub Aside-if : (b : Bool) (m n : Exec D A) → Aside m → Aside n → Aside (if b then m else n)
  Aside-if true m n left right = left
  Aside-if false m n left right = right

  -- what leaves the database alone keeps whatever holds of it
  pub Aside→Keeps : {P : Db → Type 0} (m : Exec D A) → Aside m → Keeps P m
  Aside→Keeps {P} m a = record {
    at = λ w h. record {
      view = subst P (sym (a.view w)) h.view;
      stored = subst P (sym (a.stored w)) h.stored;
    };
  }

  pub Aside→Quiet : (m : Exec D A) → Aside m → Quiet m
  Aside→Quiet m a = record { quiet = a.stored }

module _ {D : Type 0} where
  pub Aside-on_disk : (f : D → Result String D) → Aside (on_disk f)
  unfolding on_disk
  Aside-on_disk f = record {
    view = λ w. (same (f w.disk) w).0;
    stored = λ w. (same (f w.disk) w).1;
  }
    where
      same :
          (r : Result String D) (w : World D)
          → ((on_disk (λ _. r) w).1.db ≡ w.db) × ((on_disk (λ _. r) w).1.committed ≡ w.committed)
      same (ok d) w = (refl, refl)
      same (err e) w = (refl, refl)

  pub Aside-when : (b : Bool) (m : Exec D Unit) → Aside m → Aside (when b m)
  unfolding when
  Aside-when true m a = a
  Aside-when false m a = Aside-pure tt

module _ {D A B : Type 0} where
  resume-Aside :
      (r : Result ApiError A) (f : A → Exec D B) → ((a : A) → Aside (f a)) → Aside (lift r >>= f)
  unfolding ◌>>=◌
  resume-Aside (ok a) f q = record { view = λ w. (q a).view w; stored = λ w. (q a).stored w }
  resume-Aside (err e) f q = record { view = λ w. refl; stored = λ w. refl }

  pub Aside-bind :
      (m : Exec D A) (f : A → Exec D B) → Aside m → ((a : A) → Aside (f a)) → Aside (m >>= f)
  unfolding ◌>>=◌
  Aside-bind m f am af = record {
    view = λ w. let (r, w') = m w in (resume-Aside r f af).view w' ∙ am.view w;
    stored = λ w. let (r, w') = m w in (resume-Aside r f af).stored w' ∙ am.stored w;
  }

pub ruleset aside_rules =
    (Aside-pure, Aside-lift, Aside-inspect, Aside-if, Aside-on_disk, Aside-when, Aside-bind)
