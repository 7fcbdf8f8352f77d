-- ===== src/Suites/Order/Counting.antt =====
-- How often an id occurs in a list, and that sorting does not change it.
use testing_environment.Common.{
  ℕ, suc, ◌+◌, ◌≤◌, String, ◌≡◌, refl, Bool, List, [], ◌∷◌, ◌++◌, map, length, if◌then◌else◌,
  str_eq, str_eq_iff, arith, Bool-cases, inl, inr,
}
use text.Mathlib.TextPositions.{eq_refl}
use testing_environment.Suites.Order.{insert, sort}

unfoldable pub occ : String → List String → ℕ
occ x [] = 0
occ x (y ∷ ys) = (if str_eq y x then 1 else 0) + occ x ys

pub occ-nil : (x : String) → occ x [] ≡ 0
unfolding occ
occ-nil x = refl

pub occ-one : (u x : String) → occ x (u ∷ []) ≡ (if str_eq u x then 1 else 0)
unfolding occ
occ-one u x = omega arith

pub occ-cons :
    (u : String) (us : List String) (x : String)
    → occ x (u ∷ us) ≡ (if str_eq u x then 1 else 0) + occ x us
unfolding occ
occ-cons u us x = refl

pub occ-append : (x : String) (xs ys : List String) → occ x (xs ++ ys) ≡ occ x xs + occ x ys
unfolding occ
occ-append x [] ys = omega arith
occ-append x (y ∷ xs) ys = omega (arith, occ-append x xs ys)

module _ {Node : Type 0} (id : Node → String) (le : Node → Node → Bool) where
  occ-insert :
      (x : String) (n : Node) (ns : List Node)
      → occ x (map id (insert le n ns)) ≡ (if str_eq (id n) x then 1 else 0) + occ x (map id ns)
  unfolding occ insert
  occ-insert x n [] = refl
  occ-insert x n (m ∷ ns) = elim (Bool-cases (le n m)) [
    | inl e ↦ rw e refl
    | inr e ↦ rw e (omega (arith, occ-insert x n ns))
  ]

  pub occ-sort : (x : String) (ns : List Node) → occ x (map id (sort le ns)) ≡ occ x (map id ns)
  unfolding occ sort
  occ-sort x [] = refl
  occ-sort x (n ∷ ns) = omega (arith, occ-insert x n (sort le ns), occ-sort x ns)

module _ (le : String → String → Bool) (x : String) where
  occ-insert_texts :
      (t : String) (ts : List String)
      → occ x (insert le t ts) ≡ (if str_eq t x then 1 else 0) + occ x ts
  unfolding occ insert
  occ-insert_texts t [] = refl
  occ-insert_texts t (u ∷ us) = elim (Bool-cases (le t u)) [
    | inl e ↦ rw e refl
    | inr e ↦ rw e (omega (arith, occ-insert_texts t us))
  ]

  pub occ-sort_texts : (ts : List String) → occ x (sort le ts) ≡ occ x ts
  unfolding occ sort
  occ-sort_texts [] = refl
  occ-sort_texts (t ∷ ts) = omega (arith, occ-insert_texts t (sort le ts), occ-sort_texts ts)

-- A list whose entries all stand in another, no oftener than there, is no longer.
remove : String → List String → List String
remove x [] = []
remove x (y ∷ ys) = if str_eq y x then ys else y ∷ remove x ys

occ-remove :
    (x y : String) (ys : List String)
    → 1 ≤ occ x ys
    → occ y ys ≡ (if str_eq x y then 1 else 0) + occ y (remove x ys)
unfolding occ remove
occ-remove x y [] h = omega (arith, h)
occ-remove x y (z ∷ zs) h = elim (Bool-cases (str_eq z x)) [
  | inl e ↦ let p : z ≡ x = (str_eq_iff z x).0 e in rw (e, p) refl
  | inr e ↦ rw e (ground (arith, occ-remove x y zs))
]

length-remove :
    (x : String) (ys : List String) → 1 ≤ occ x ys → length ys ≡ suc (length (remove x ys))
unfolding occ remove
length-remove x [] h = omega (arith, h)
length-remove x (z ∷ zs) h = ground (arith, length-remove x zs)

pub length-occ :
    (xs ys : List String) → ((x : String) → occ x xs ≤ occ x ys) → length xs ≤ length ys
unfolding occ
length-occ [] ys h = omega arith
length-occ (x ∷ xs) ys h =
    let here : 1 ≤ occ x ys = at_head in
    let rest : (y : String) → occ y xs ≤ occ y (remove x ys) =
      λ y. omega (arith, h y, occ-remove x y ys here) in
    omega (arith, length-remove x ys here, length-occ xs (remove x ys) rest)
  where
    at_head : 1 ≤ occ x ys
    at_head = let k = rw eq_refl at (h x) in omega (arith, k)
