-- ===== src/Core/Entities/Updates.antt =====
-- `EntityRecord.validate_update_from` of labos/core/entities.py.
use Prim.Native.String.{◌++◌ as append, compare}
use package.text.Mathlib.Text.{is_lt}
use mathlib.Core.Path.{subst}
use labos.Prelude.{
  ℕ, String, ◌≡◌, ◌↔◌, refl, ap, Bool, true, false, not, Option, none, some, List, [], ◌∷◌,
  Bool-cases, inl, inr, arith,
}
use labos.Prelude.{Result, ok, err, All, keep, Eq, ◌==◌, string_eq, nat_eq, eq_iff, eq_refl}
use labos.Policy.Values.{lookup}
use labos.Db.Table.{order_by}
use labos.Core.Entities.{Attribute, name, time, Entity}

abbrev attribute_beq : Option Attribute → Option Attribute → Bool
attribute_beq none none = true
attribute_beq (some (name s)) (some (name t)) = s == t
attribute_beq (some (time s)) (some (time t)) = s == t
attribute_beq _ _ = false

instance abbrev pub attribute_eq : Eq (Option Attribute)
attribute_eq = record { beq = attribute_beq }

-- `", ".join(names)`
unfoldable pub join : List String → String
join [] = ""
join (n ∷ []) = n
join (n ∷ m ∷ rest) = append n (append ", " (join (m ∷ rest)))

abbrev name_before : String → String → Bool
name_before s t = is_lt (compare s t)

unfoldable pub refuse_changed : List String → Result String Unit
unfolding join
refuse_changed [] = ok tt
refuse_changed (f ∷ rest) =
    err (append "immutable fields changed: " (join (order_by name_before (f ∷ rest))))

module _ {A : Type 0} ⦃entity : Entity A⦄ where
  -- `getattr(self, field_name)`
  abbrev pub attribute : A → String → Option Attribute
  attribute self field = lookup field (entity.attributes self)

  unfoldable pub changed_fields : A → A → List String
  changed_fields self previous =
      keep (λ f. not (attribute self f == attribute previous f)) entity.immutable_fields

  unfoldable pub validate_update_from : A → A → Result String Unit
  unfolding changed_fields refuse_changed
  validate_update_from self previous = refuse_changed (changed_fields self previous)

time-eq : (m n : ℕ) → (m == n) ≡ true → m ≡ n
time-eq m n h = ground arith

attribute_beq_sound : (a b : Option Attribute) → (a == b) ≡ true → a ≡ b
attribute_beq_sound none none h = refl
attribute_beq_sound none (some b) h = absurd (cc)
attribute_beq_sound (some (name s)) none h = absurd (cc)
attribute_beq_sound (some (time s)) none h = absurd (cc)
attribute_beq_sound (some (name s)) (some (name t)) h = ap (λ x. some (name x)) ((eq_iff s t).0 h)
attribute_beq_sound (some (name s)) (some (time t)) h = absurd (cc)
attribute_beq_sound (some (time s)) (some (name t)) h = absurd (cc)
attribute_beq_sound (some (time s)) (some (time t)) h = ap (λ x. some (time x)) (time-eq s t h)

time_refl : (n : ℕ) → (n == n) ≡ true
time_refl n = ground arith

attribute_beq_refl : (a : Option Attribute) → (a == a) ≡ true
attribute_beq_refl none = refl
attribute_beq_refl (some (name s)) = eq_refl s
attribute_beq_refl (some (time n)) = time_refl n

module _ {A : Type 0} (get get' : A → Option Attribute) where
  keep-same :
      (fields : List A)
      → keep (λ f. not (get f == get' f)) fields ≡ []
      → All (λ f. get f ≡ get' f) fields
  keep-same [] h = tt
  keep-same (f ∷ rest) h = elim (Bool-cases (get f == get' f)) [
    | inl same ↦ (attribute_beq_sound (get f) (get' f) same, keep-same rest (rw same at h))
    | inr other ↦ (let h' = rw other at h in absurd (cc))
  ]

  same-keep :
      (fields : List A)
      → All (λ f. get f ≡ get' f) fields
      → keep (λ f. not (get f == get' f)) fields ≡ []
  same-keep [] h = refl
  same-keep (f ∷ rest) h =
      rw (subst (λ x. (get f == x) ≡ true) h.0 (attribute_beq_refl (get f))) (same-keep rest h.1)

refuse_changed-ok : (fields : List String) → refuse_changed fields ≡ ok tt → fields ≡ []
unfolding refuse_changed
refuse_changed-ok [] h = refl
refuse_changed-ok (f ∷ rest) h = absurd (cc)

module _ {A : Type 0} ⦃entity : Entity A⦄ where
  -- An update of an entity is accepted exactly if each immutable field of its class has the value
  -- that it had.
  pub validate_update_from_iff :
      (self previous : A)
      → (validate_update_from self previous ≡ ok tt)
        ↔ All (λ f. attribute self f ≡ attribute previous f) entity.immutable_fields
  unfolding validate_update_from
  validate_update_from_iff self previous = (
    λ h.
        keep-same (attribute self) (attribute previous) entity.immutable_fields
          (refuse_changed-ok _ h),
    λ h.
        ap refuse_changed
          (same-keep (attribute self) (attribute previous) entity.immutable_fields h),
  )
