-- ===== src/Policy/Values.antt =====
-- The values that `requested_overrides : dict[str, object]` may hold: JSON's, without fractions.
use mathlib.Core.Path.{subst}
use mathlib.Core.Option.{some-injective}
use labos.Prelude.{
  All, ◌≡◌, Bool-cases, inl, inr, eq_iff, ℕ, String, Bool, true, false, not, List, [], ◌∷◌, Option,
  none, some,
}
use labos.Prelude.{◌==◌, if◌then◌else◌, nat_eq, string_eq}

-- A scalar or an element of a list. `nested` is a dictionary (or, inside a list, also a list)
-- with its truth value; `negative n` is -(n + 1).
pub data Item : Type 0 where
  null : Item
  boolean : Bool → Item
  int : ℕ → Item
  negative : ℕ → Item
  text : String → Item
  nested : Bool → Item

pub data Value : Type 0 where
  scalar : Item → Value
  list : List Item → Value

abbrev pub Overrides : Type 0
Overrides = List (String × Value)

-- `overrides.get(key)`
unfoldable pub lookup {ℓ} : {A : Type ℓ} → String → List (String × A) → Option A
lookup key [] = none
lookup key ((k, v) ∷ rest) = if k == key then some v else lookup key rest

-- what a dictionary holds for a key has what all of its entries have
pub lookup-All {ℓ κ} :
    {A : Type ℓ} (Q : String → A → Type κ) (key : String) (entries : List (String × A)) {a : A}
    → All (λ e. Q e.0 e.1) entries
    → lookup key entries ≡ some a
    → Q key a
unfolding lookup
lookup-All Q key [] h e = absurd (cc)
lookup-All Q key ((k, v) ∷ rest) {a} h e = elim (Bool-cases (k == key)) [
  | inl here ↦
      subst (λ x. Q x a) ((eq_iff k key).0 here)
        (subst (Q k) (some-injective v a (rw here at e)) h.0)
  | inr there ↦ lookup-All Q key rest h.1 (rw there at e)
]

-- `bool(value)`
abbrev pub truthy : Value → Bool
truthy (scalar null) = false
truthy (scalar (boolean b)) = b
truthy (scalar (int n)) = not (n == 0)
truthy (scalar (negative n)) = true
truthy (scalar (text s)) = not (s == "")
truthy (scalar (nested b)) = b
truthy (list []) = false
truthy (list (x ∷ xs)) = true

-- An expected value after `getattr(value, "value", value)`: the text of an enumeration, or a number.
pub data Expected : Type 0 where
  text_value : String → Expected
  int_value : ℕ → Expected

-- `value == expected`, where Python counts `True` as 1 and `False` as 0
abbrev pub equals : Value → Expected → Bool
equals (scalar (text s)) (text_value t) = s == t
equals (scalar (int n)) (int_value m) = n == m
equals (scalar (boolean true)) (int_value m) = m == 1
equals (scalar (boolean false)) (int_value m) = m == 0
equals _ _ = false
