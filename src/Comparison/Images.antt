-- ===== src/Comparison/Images.antt =====
-- What the comparison says of the images of two runs.
use testing_environment.Common.{
  String, Bool, true, false, ◌||◌, Option, none, some, List, [], ◌∷◌, ◌++◌, map, str_eq, str_eq_iff,
  Bool-cases, ◌≡◌, refl, sym, ap, ◌∙◌, inl, inr, ◌↔◌, All, arith,
}
use testing_environment.Diagnosis.{ImageReference}
use testing_environment.Comparison.{last_with, differs}
use testing_environment.Comparison.Revisions.{
  compare_image_references, image_in, image_of, service_key, has_text, distinct_from, service_names,
  compare_image, ImageComparison,
}

either : (a b : Bool) → (a || b) ≡ false → (a ≡ false) × (b ≡ false)
either false false h = (refl, refl)
either false true h = cc
either true b h = cc

differs_iff : (a b : Option String) → (differs a b ≡ false) ↔ (a ≡ b)
differs_iff none none = ground arith
differs_iff none (some b) = ground arith
differs_iff (some a) none = ground arith
differs_iff (some a) (some b) = ground (arith, str_eq_iff a b)

last_with-absent :
    (s : String) (rs : List ImageReference)
    → has_text s (map (λ r. r.service_name) rs) ≡ false
    → last_with service_key s rs ≡ none
last_with-absent s [] h = refl
last_with-absent s (r ∷ rs) h =
    let (a, b) = either (str_eq r.service_name s) _ h in rw (last_with-absent s rs b) (rw a refl)

has_text-append :
    (s : String) (xs ys : List String) → has_text s (xs ++ ys) ≡ (has_text s xs || has_text s ys)
has_text-append s [] ys = refl
has_text-append s (x ∷ xs) ys = ground (arith, has_text-append s xs ys)

-- The distinct names have each name that was not seen before.
has_text-distinct_from :
    (s : String) (seen ns : List String)
    → has_text s ns ≡ true
    → has_text s seen ≡ false
    → has_text s (distinct_from seen ns) ≡ true
has_text-distinct_from s seen [] h k = cc
has_text-distinct_from s seen (n ∷ ns) h k = elim (Bool-cases (str_eq n s)) [
  | inl e ↦ rw (ap (λ x. has_text x seen) ((str_eq_iff n s).0 e) ∙ k) (rw e refl)
  | inr e ↦ elim (Bool-cases (has_text n seen)) [
    | inl t ↦ rw t (has_text-distinct_from s seen ns (ground arith) k)
    | inr t ↦ rw t (rw e (has_text-distinct_from s (n ∷ seen) ns (ground arith) (ground arith)))
  ]
]

All-at :
    (P : ImageComparison → Type 0) (f : String → ImageComparison) (s : String) (ns : List String)
    → All P (map f ns)
    → has_text s ns ≡ true
    → P (f s)
All-at P f s [] h t = cc
All-at P f s (n ∷ ns) h t = elim (Bool-cases (str_eq n s)) [
  | inl e ↦ rw ((str_eq_iff n s).0 e) at h.0
  | inr e ↦ All-at P f s ns h.1 (ground arith)
]

absent_lem :
    (s : String) (a b : List ImageReference)
    → has_text s (service_names a b) ≡ false
    → image_of s a ≡ image_of s b
absent_lem s a b h =
    let (k, l) =
      either _ _
        (sym (has_text-append s (map (λ r. r.service_name) a) (map (λ r. r.service_name) b)) ∙ h) in
    ap image_in (last_with-absent s a k ∙ sym (last_with-absent s b l))

compare_image-All :
    (a b : List ImageReference) (ns : List String)
    → ((s : String) → image_of s a ≡ image_of s b)
    → All (λ c. c.changed ≡ false) (map (compare_image a b) ns)
unfolding compare_image
compare_image-All a b [] h = tt
compare_image-All a b (n ∷ ns) h =
    ((differs_iff (image_of n a) (image_of n b)).1 (h n), compare_image-All a b ns h)

-- The comparison of the images finds no change exactly if every service has the same image in both runs, or in neither.
pub compare_image_references_iff :
    (current baseline : List ImageReference)
    → All (λ c. c.changed ≡ false) (compare_image_references current baseline)
      ↔ ((s : String) → image_of s current ≡ image_of s baseline)
unfolding compare_image_references compare_image
compare_image_references_iff current baseline = (
  λ h s. elim (Bool-cases (has_text s (service_names current baseline))) [
    | inl t ↦ (differs_iff (image_of s current) (image_of s baseline)).0 (
        All-at (λ c. c.changed ≡ false) (compare_image current baseline) s _ h
          (has_text-distinct_from s [] (service_names current baseline) t refl))
    | inr t ↦ absent_lem s current baseline t
  ],
  compare_image-All current baseline _,
)
