-- ===== src/Common/Text/Trimming.antt =====
-- A trimmed text is trimmed.
use Prim.Native.String.{String, [], ◌∷◌, ◌++◌}
use Prim.Native.Char.{Char}
use text.Mathlib.TextLemmas.{nil-append, cons-append}
use Prim.Native.Nat.{◌/◌, ◌%◌}
use testing_environment.Common.{
  ltb, ℕ, Bool, true, false, ◌&&◌, Option, none, some, if_lem, ◌==◌, ◌≡◌, refl, sym, ap, ◌∙◌, inl,
  inr, Bool-cases, if◌then◌else◌, str_eq, str_eq_iff,
}
use testing_environment.Common.Text.{
  show, show_digits, digit_text, is_space, trim_start, trim_end, trim, is_blank, trimmed,
}

-- The end of a text that begins with no space begins so too.
trim_end-begins : (c : Char) (s : String) → is_space c ≡ false → trim_end (c ∷ s) ≡ c ∷ trim_end s
unfolding trim_end
trim_end-begins c s h = rw h refl

trim_end_twice : (s : String) → trim_end (trim_end s) ≡ trim_end s
unfolding trim_end
trim_end_twice [] = refl
trim_end_twice (c ∷ s) = elim (Bool-cases (is_space c && str_eq (trim_end s) [])) [
  | inl e ↦ rw e refl
  | inr e ↦ rw e (rw (trim_end_twice s) (rw e refl))
]

trim_start-begins : (c : Char) (s : String) → is_space c ≡ false → trim_start (c ∷ s) ≡ c ∷ s
unfolding trim_start
trim_start-begins c s h = rw h refl

trim_empty : trim_end (trim_start (trim_end (trim_start []))) ≡ trim_end (trim_start [])
unfolding trim_start trim_end
trim_empty = refl

trim_begun :
    (c : Char) (s : String)
    → is_space c ≡ false
    → trim_end (trim_start (trim_end (c ∷ s))) ≡ trim_end (c ∷ s)
trim_begun c s e =
    ap trim_end (
      ap trim_start (trim_end-begins c s e)
      ∙ trim_start-begins c (trim_end s) e
      ∙ sym (trim_end-begins c s e))
    ∙ trim_end_twice (c ∷ s)

trim_lem : (s : String) → trim_end (trim_start (trim_end (trim_start s))) ≡ trim_end (trim_start s)
unfolding trim_start
trim_lem [] = trim_empty
trim_lem (c ∷ s) = elim (Bool-cases (is_space c)) [
  | inl e ↦ rw e (trim_lem s)
  | inr e ↦ rw e (trim_begun c s e)
]

pub trim-trim : (s : String) → trim (trim s) ≡ trim s
unfolding trim
trim-trim s = trim_lem s

pub is_blank-trim : (s : String) → is_blank (trim s) ≡ is_blank s
unfolding is_blank
is_blank-trim s = ap (λ t. str_eq t []) (trim-trim s)

pub trimmed_twice : (o : Option String) → trimmed (trimmed o) ≡ trimmed o
trimmed_twice none = refl
trimmed_twice (some s) = elim (Bool-cases (is_blank s)) [
  | inl e ↦ rw e refl
  | inr e ↦ rw e (rw (is_blank-trim s ∙ e) (ap some (trim-trim s)))
]

-- A text with an end that is not empty and does not end with a space.
abbrev pub IsTight : String → Type 0
IsTight s = (trim_end s ≡ s) × (str_eq s [] ≡ false)

cons_given : (c : Char) (s : String) → str_eq (c ∷ s) [] ≡ false
cons_given c s = elim (Bool-cases (str_eq (c ∷ s) [])) [
  | inl e ↦ cc ((str_eq_iff (c ∷ s) []).0 e)
  | inr e ↦ e
]

cons-IsTight : (c : Char) (s : String) → IsTight s → IsTight (c ∷ s)
unfolding trim_end
cons-IsTight c s (h, k) = (rw h (rw k (if_and (is_space c))), cons_given c s)
  where
    if_and : (b : Bool) → (if b && false then [] else c ∷ s) ≡ c ∷ s
    if_and true = refl
    if_and false = refl

pub append-IsTight : (s t : String) → IsTight t → IsTight (s ++ t)
append-IsTight [] t h = rw (nil-append t) h
append-IsTight (c ∷ s) t h = rw (cons-append c s t) (cons-IsTight c (s ++ t) (append-IsTight s t h))

pub digit_text-IsTight : (n : ℕ) → IsTight (digit_text n)
unfolding trim_end
digit_text-IsTight n =
    if_lem IsTight (n == 0) (refl, refl)
      (if_lem IsTight (n == 1) (refl, refl)
        (if_lem IsTight (n == 2) (refl, refl)
          (if_lem IsTight (n == 3) (refl, refl)
            (if_lem IsTight (n == 4) (refl, refl)
              (if_lem IsTight (n == 5) (refl, refl)
                (if_lem IsTight (n == 6) (refl, refl)
                  (if_lem IsTight (n == 7) (refl, refl)
                    (if_lem IsTight (n == 8) (refl, refl) (refl, refl)))))))))

pub show-IsTight : (n : ℕ) → IsTight (show n)
unfolding show show_digits
show-IsTight n =
    if_lem IsTight (ltb n 10) (digit_text-IsTight n)
      (append-IsTight (show_digits n (n / 10)) (digit_text (n % 10)) (digit_text-IsTight (n % 10)))

-- A text with a start that is not a space, and with such an end, is trimmed and not blank.
pub starts-IsTight :
    (c : Char) (s t : String)
    → is_space c ≡ false
    → IsTight t
    → (is_blank ((c ∷ s) ++ t) ≡ false) × (trim ((c ∷ s) ++ t) ≡ (c ∷ s) ++ t)
unfolding is_blank trim
starts-IsTight c s t h k =
    let tight = append-IsTight (c ∷ s) t k in
    let kept : trim_end (trim_start ((c ∷ s) ++ t)) ≡ (c ∷ s) ++ t =
      ap trim_end (
        ap trim_start (cons-append c s t)
        ∙ trim_start-begins c (s ++ t) h
        ∙ sym (cons-append c s t))
      ∙ tight.0 in
    (ap (λ x. str_eq x []) kept ∙ tight.1, kept)
