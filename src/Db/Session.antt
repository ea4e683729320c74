-- ===== src/Db/Session.antt =====
-- A request works in a session: `db` is what it sees, `committed` what the database holds. Raising
-- ends the request, and closing the session drops what was not committed. The disk has no rollback.
use labos.Prelude.{List, [], ◌∷◌, ◌++◌, ℕ, suc, ◌*◌, String, Bool, true, false, Option, none, some}
use labos.Prelude.{Result, ok, err}
use labos.Db.Rows.{Db}
use labos.Db.Platform.{Platform}

-- What a request raises: `ResourceNotFoundError`, `ConflictError` with its resource,
-- `HTTPException` with status 400, an exception that no handler is registered for, or (before the
-- endpoint runs) `RequestValidationError`.
pub data ApiError : Type 0 where
  not_found : String → ApiError
  conflict : String → String → ApiError
  bad_request : String → ApiError
  fault : String → ApiError
  unprocessable : String → ApiError

pub record World (D : Type 0) : Type 0 where
  pub db : Db
  pub committed : Db
  pub disk : D
  pub drawn : ℕ

abbrev pub Exec : Type 0 → Type 0 → Type 0
Exec D A = World D → Result ApiError A × World D

module _ {D A : Type 0} where
  unfoldable pub pure : A → Exec D A
  pure a w = (ok a, w)

  unfoldable pub raise : ApiError → Exec D A
  raise e w = (err e, w)

  unfoldable pub gets : (Db → A) → Exec D A
  gets f w = (ok (f w.db), w)

  unfoldable pub lift : Result ApiError A → Exec D A
  lift r w = (r, w)

  unfoldable pub inspect : (D → A) → Exec D A
  inspect f w = (ok (f w.disk), w)

  -- `if row is None: raise ...`
  unfoldable pub or_raise : Option A → ApiError → Exec D A
  unfolding raise pure
  or_raise none e = raise e
  or_raise (some a) e = pure a

  -- the end of `with db_session_factory() as session:`
  unfoldable pub with_session : Exec D A → Exec D A
  with_session m w = let (r, w') = m w in (r, record w' { db = w'.committed })

module _ {D : Type 0} where
  unfoldable pub modify : (Db → Db) → Exec D Unit
  modify f w = (ok tt, record w { db = f w.db })

  unfoldable pub commit : Exec D Unit
  commit w = (ok tt, record w { committed = w.db })

  unfoldable pub raise_if : Bool → ApiError → Exec D Unit
  unfolding raise pure
  raise_if true e = raise e
  raise_if false e = pure tt

  -- `if test: ...`
  unfoldable pub when : Bool → Exec D Unit → Exec D Unit
  unfolding pure
  when true m = m
  when false m = pure tt

  done : Result String D → World D → Result ApiError Unit × World D
  done (ok d) w = (ok tt, record w { disk = d })
  done (err text) w = (err (fault text), w)

  -- a file operation; what it raises is not handled
  unfoldable pub on_disk : (D → Result String D) → Exec D Unit
  unfolding done
  on_disk f w = done (f w.disk) w

-- `str(uuid4())`
unfoldable pub new_id : (os : Platform) → Exec os.Disk String
new_id os w = (ok (os.uuid4 w.drawn), record w { drawn = suc w.drawn })

infixl 5 ◌>>=◌ ◌>>◌
-- opening this opens what the other actions are made of
unfoldable pub ◌>>=◌ : {D A B : Type 0} → Exec D A → (A → Exec D B) → Exec D B
unfolding pure raise gets lift inspect or_raise modify commit raise_if when on_disk new_id
◌>>=◌ m f w = let (r, w') = m w in elim r [ ok a ↦ f a w' | err e ↦ (err e, w') ]

abbrev pub ◌>>◌ : {D B : Type 0} → Exec D Unit → Exec D B → Exec D B
m >> k = m >>= λ _. k

-- `with session.begin_nested(): ...` inside a `try`: what raises leaves the view as it was
unfoldable pub nested : {D A : Type 0} → Exec D A → Exec D (Result ApiError A)
nested m w =
    let (r, w') = m w in
    elim r [ ok a ↦ (ok (ok a), w') | err e ↦ (ok (err e), record w' { db = w.db }) ]

-- `try: ... except Exception`
unfoldable pub attempt : {D A : Type 0} → Exec D A → Exec D (Result ApiError A)
attempt m w = let (r, w') = m w in (ok r, w')

-- `for row in rows: ...`, with what the rounds report
unfoldable pub each : {D R A : Type 0} → (R → Exec D (List A)) → List R → Exec D (List A)
each body [] = pure []
each body (row ∷ rows) = do first ← body row; rest ← each body rows; pure (first ++ rest)

-- minutes and hours of `timedelta`, in the microseconds of an instant
abbrev pub minutes : ℕ → ℕ
minutes n = n * 60000000

abbrev pub hours : ℕ → ℕ
hours n = n * 3600000000
