-- ===== src/Assertions/Reflexive.antt =====
-- A value contains itself, if no object of it repeats a key.
use package.text.Mathlib.TextPositions.{eq_refl}
use testing_environment.Common.{
  ℕ, suc, ◌+◌, String, ◌≡◌, refl, ap, ◌∙◌, true, false, none, some, str_eq, str_eq_iff, arith,
  Bool-cases, inl, inr,
}
use testing_environment.Suites.Flow.{
  Json, null, boolean, number, text, array, object, Items, end, item, Fields, done, field,
}
use testing_environment.Assertions.{
  property, item_at, field_named, same_value, contains, every_item, every_field,
}

unfoldable mutual
  -- No object repeats a key.
  pub HasKeysOnce : Json → Type 0
  HasKeysOnce (array items) = ItemsHaveKeysOnce items
  HasKeysOnce (object fields) = FieldsHaveKeysOnce fields
  HasKeysOnce _ = Unit

  ItemsHaveKeysOnce : Items → Type 0
  ItemsHaveKeysOnce end = Unit
  ItemsHaveKeysOnce (item v rest) = HasKeysOnce v × ItemsHaveKeysOnce rest

  FieldsHaveKeysOnce : Fields → Type 0
  FieldsHaveKeysOnce done = Unit
  FieldsHaveKeysOnce (field key v rest) =
      (field_named key rest ≡ none) × HasKeysOnce v × FieldsHaveKeysOnce rest

-- The fields are found under their keys.
abbrev AreFields : Fields → Fields → Type 0
AreFields whole done = Unit
AreFields whole (field key v rest) = (field_named key whole ≡ some v) × AreFields whole rest

AreFields-field :
    (key : String) (v : Json) (whole rest : Fields)
    → field_named key rest ≡ none
    → AreFields whole rest
    → AreFields (field key v whole) rest
unfolding field_named
AreFields-field key v whole done new h = tt
AreFields-field key v whole (field k u rest) new h = elim (Bool-cases (str_eq k key)) [
  | inl e ↦ let k = rw e at new in cc
  | inr e ↦
      let other : str_eq key k ≡ false = ground (arith, e, str_eq_iff key k, str_eq_iff k key) in
      (rw other h.0, AreFields-field key v whole rest (rw e at new) h.1)
]

AreFields-refl : (fields : Fields) → FieldsHaveKeysOnce fields → AreFields fields fields
unfolding field_named HasKeysOnce
AreFields-refl done h = tt
AreFields-refl (field key v rest) h =
    (rw eq_refl refl, AreFields-field key v rest rest h.0 (AreFields-refl rest h.2))

the_same : (n : ℕ) → n ≡ 0 + n
the_same n = omega arith

shift : (m n : ℕ) → m + suc n ≡ suc m + n
shift m n = omega arith

mutual
  unfolding contains property item_at same_value HasKeysOnce

  contains_itself : (v : Json) → HasKeysOnce v → contains (some v) v ≡ true
  contains_itself null h = refl
  contains_itself (boolean true) h = refl
  contains_itself (boolean false) h = refl
  contains_itself (number n) h = eq_refl n
  contains_itself (text s) h = eq_refl s
  contains_itself (array items) h =
      every_item_refl items 0 items (λ m. ap (λ k. item_at k items) (omega arith)) h
  contains_itself (object fields) h = every_field_refl fields fields (AreFields-refl fields h) h

  every_item_refl :
      (whole : Items) (n : ℕ) (rest : Items)
      → ((m : ℕ) → item_at (m + n) whole ≡ item_at m rest)
      → ItemsHaveKeysOnce rest
      → every_item (some (array whole)) n rest ≡ true
  every_item_refl whole n end at h = refl
  every_item_refl whole n (item v rest) at h =
      let here : item_at n whole ≡ some v = ap (λ (k : ℕ). item_at k whole) (the_same n) ∙ at 0 in
      rw (here, contains_itself v h.0)
        (every_item_refl whole (suc n) rest
          (λ m. ap (λ (k : ℕ). item_at k whole) (shift m n) ∙ at (suc m)) h.1)

  every_field_refl :
      (whole rest : Fields)
      → AreFields whole rest
      → FieldsHaveKeysOnce rest
      → every_field (some (object whole)) rest ≡ true
  every_field_refl whole done are h = refl
  every_field_refl whole (field key v rest) are h =
      rw (are.0, contains_itself v h.1) (every_field_refl whole rest are.1 h.2)

-- A value none of whose objects repeats a key contains itself.
pub contains_refl : (v : Json) → HasKeysOnce v → contains (some v) v ≡ true
contains_refl v h = contains_itself v h
