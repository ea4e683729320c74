-- ===== src/Policy/PosixPaths.antt =====
-- `pathlib.PurePosixPath`, as far as labos/core/policy_engine.py and
-- labos/security/export_gate.py use it: parsing, equality, `parents` and `relative_to`.
-- As in pathlib, `.` and empty components go, `..` stays, and a path with exactly two leading
-- slashes has another root than one with one or with three.
use Prim.Native.Char.{Char, code}
use labos.Prelude.{ℕ, zero, suc, String, Bool, true, false, ◌&&◌, ◌||◌, List, [], ◌∷◌, map}
use labos.Prelude.{◌≡◌, ◌++◌, eq_iff, arith}
use labos.Prelude.{Option, none, some, Eq, ◌==◌, keep, not, if◌then◌else◌, nat_eq, string_eq}

pub record PosixPath : Type 0 where
  pub root : ℕ
  pub parts : List String

push_front : Char → List String → List String
push_front c [] = String.◌∷◌ c String.[] ∷ []
push_front c (p ∷ ps) = String.◌∷◌ c p ∷ ps

-- `s.split("/")`
unfoldable pub split_slash : String → List String
unfolding push_front
split_slash String.[] = "" ∷ []
split_slash (String.◌∷◌ c s) =
    let rest = split_slash s in if code c == b'/' then "" ∷ rest else push_front c rest

leading_slashes : String → ℕ
leading_slashes String.[] = 0
leading_slashes (String.◌∷◌ c s) =
    let more = leading_slashes s in if code c == b'/' then suc more else 0

abbrev root_of : ℕ → ℕ
root_of zero = 0
root_of (suc zero) = 1
root_of (suc (suc zero)) = 2
root_of (suc (suc (suc n))) = 1

abbrev pub is_component : String → Bool
is_component part = not (part == "" || part == ".")

unfoldable pub parse : String → PosixPath
unfolding split_slash leading_slashes
parse s = record { root = root_of (leading_slashes s); parts = keep is_component (split_slash s) }

abbrev pub parts_eq : List String → List String → Bool
parts_eq [] [] = true
parts_eq [] (q ∷ qs) = false
parts_eq (p ∷ ps) [] = false
parts_eq (p ∷ ps) (q ∷ qs) = p == q && parts_eq ps qs

abbrev pub path_beq : PosixPath → PosixPath → Bool
path_beq p q = p.root == q.root && parts_eq p.parts q.parts

instance abbrev pub path_eq : Eq PosixPath
path_eq = record { beq = path_beq }

-- the proper prefixes of the parts
abbrev pub proper_prefixes : List String → List (List String)
proper_prefixes [] = []
proper_prefixes (p ∷ ps) = [] ∷ map (λ q. p ∷ q) (proper_prefixes ps)

abbrev pub parents : PosixPath → List PosixPath
parents p = map (λ q. record { root = p.root; parts = q }) (proper_prefixes p.parts)

-- what is left of the parts behind a prefix
abbrev pub strip_parts : List String → List String → Option (List String)
strip_parts ps [] = some ps
strip_parts [] (q ∷ qs) = none
strip_parts (p ∷ ps) (q ∷ qs) = let rest = strip_parts ps qs in if p == q then rest else none

pub strip_parts-some : (ps qs rest : List String) → strip_parts ps qs ≡ some rest → ps ≡ qs ++ rest
strip_parts-some ps [] rest h = cc
strip_parts-some [] (q ∷ qs) rest h = absurd (cc)
strip_parts-some (p ∷ ps) (q ∷ qs) rest h = ground (arith, eq_iff p q, strip_parts-some ps qs rest)

-- `path.relative_to(base)`; `none` is the `ValueError`
abbrev pub relative_to : PosixPath → PosixPath → Option (List String)
relative_to p base = if p.root == base.root then strip_parts p.parts base.parts else none
