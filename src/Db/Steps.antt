-- ===== src/Db/Steps.antt =====
-- Runs of an action, one step at a time.
use labos.Prelude.{Result, String, ◌≡◌, refl, ap, Bool, false, Option, some, ok, err}
use labos.Db.Rows.{Db}
use labos.Db.Session.{
  lift, inspect, on_disk, ApiError, World, Exec, gets, or_raise, raise_if, ◌>>=◌, ◌>>◌,
}

module _ {D A B : Type 0} (m : Exec D A) (f : A → Exec D B) {w v : World D} where
  pub bind-ok : {a : A} → m w ≡ (ok a, v) → (m >>= f) w ≡ f a v
  unfolding ◌>>=◌
  bind-ok {a} h = ap (λ p. ((λ _. p) >>= f) w) h

  pub bind-err : {e : ApiError} → m w ≡ (err e, v) → (m >>= f) w ≡ (err e, v)
  unfolding ◌>>=◌
  bind-err {e} h = ap (λ p. ((λ _. p) >>= f) w) h

module _ {D B : Type 0} (w : World D) where
  pub bind-found :
      {A : Type 0} (g : Db → Option A) (e : ApiError) (f : A → Exec D B) (a : A)
      → g w.db ≡ some a
      → ((gets g >>= λ o. or_raise o e) >>= f) w ≡ f a w
  unfolding ◌>>=◌
  bind-found g e f a h = ap (λ o. ((gets (λ _. o) >>= λ x. or_raise x e) >>= f) w) h

  pub bind-passed :
      (b : Bool) (e : ApiError) (m : Exec D B) → b ≡ false → (raise_if b e >> m) w ≡ m w
  unfolding ◌>>=◌
  bind-passed b e m h = rw h refl

module _ {D A B : Type 0} where
  resumed :
      (r : Result ApiError A) (f : A → Exec D B) (w v : World D) (b : B)
      → (lift r >>= f) w ≡ (ok b, v)
      → (a : A) × (r ≡ ok a) × (f a w ≡ (ok b, v))
  unfolding ◌>>=◌
  resumed (ok a) f w v b h = (a, refl, h)
  resumed (err e) f w v b h = absurd (cc)

  -- what returned has gone through both parts
  pub bind-ok_inverse :
      (m : Exec D A) (f : A → Exec D B) (w v : World D) (b : B)
      → (m >>= f) w ≡ (ok b, v)
      → (a : A) × ((m w).0 ≡ ok a) × (f a (m w).1 ≡ (ok b, v))
  unfolding ◌>>=◌
  bind-ok_inverse m f w v b h = resumed (m w).0 f (m w).1 v b h

module _ {D B : Type 0} where
  written :
      (r : Result String D) (f : Unit → Exec D B) (w v : World D) (b : B)
      → (on_disk (λ _. r) >>= f) w ≡ (ok b, v)
      → (d : D) × (r ≡ ok d) × (f tt (record w { disk = d }) ≡ (ok b, v))
  unfolding ◌>>=◌
  written (ok d) f w v b h = (d, refl, h)
  written (err e) f w v b h = absurd (cc)

  pub on_disk-ok_inverse :
      (g : D → Result String D) (f : Unit → Exec D B) (w v : World D) (b : B)
      → (on_disk g >>= f) w ≡ (ok b, v)
      → (d : D) × (g w.disk ≡ ok d) × (f tt (record w { disk = d }) ≡ (ok b, v))
  unfolding ◌>>=◌
  on_disk-ok_inverse g f w v b h = written (g w.disk) f w v b h

module _ {D A B : Type 0} where
  pub inspect-ok_inverse :
      (g : D → A) (f : A → Exec D B) (w v : World D) (b : B)
      → (inspect g >>= f) w ≡ (ok b, v)
      → f (g w.disk) w ≡ (ok b, v)
  unfolding ◌>>=◌
  inspect-ok_inverse g f w v b h = h
