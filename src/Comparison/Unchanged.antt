-- ===== src/Comparison/Unchanged.antt =====
-- The comparison of a run with one that had the same revisions, images and results.
use mathlib.Core.List.{Memᴰ}
use testing_environment.Common.{
  ℕ, ◌*◌, ◌≤◌, ◌<◌, leb, ltb→lt, Bool-cases, String, Bool, true, false, Option, none, some, List,
  [], ◌∷◌, map, or_try, if◌then◌else◌, str_eq, str_eq_iff, Option-cases, ◌≡◌, refl, sym, ap, ◌∙◌,
  ◌⊎◌, inl, inr, ◌==◌, All, arith, ltb,
}
use testing_environment.Diagnosis.{
  TestResult, ResultStatus, step_passed, step_failed, ImageReference,
}
use testing_environment.Comparison.{is_key, last_with, SuiteRevision, differs, ComparisonRun}
use testing_environment.Comparison.Diffs.{
  step_key, name_key, counterpart, step_diff, build_step_diffs, summarize, count_of, same_result,
  is_regression, difference, StepDiff,
}
use testing_environment.Comparison.Revisions.{
  compare_suite_revisions, compare_image_references, suite_key, image_of, compare_image,
}
use testing_environment.Comparison.Service.{
  TestRunComparison, find_baseline_run, compare, read_image_references, compared, environment_id,
}

module _ {ℓ} {A : Type ℓ} where
  from_one :
      (o : Option A) (b : Bool) (x y : A)
      → or_try o (if b then some x else none) ≡ some y
      → (o ≡ some y) ⊎ ((x ≡ y) × (b ≡ true))
  from_one none true x y h = inr (cc, refl)
  from_one none false x y h = cc
  from_one (some z) b x y h = inl h

  from_none :
      (o : Option A) (b : Bool) (x : A)
      → or_try o (if b then some x else none) ≡ none
      → (o ≡ none) × (b ≡ false)
  from_none none true x h = cc
  from_none none false x h = (refl, refl)
  from_none (some z) b x h = cc

  module _ (key : A → Option String) (k : String) where
    last_with-IsIn :
        (xs : List A) (y : A) → last_with key k xs ≡ some y → Memᴰ y xs × (is_key (key y) k ≡ true)
    last_with-IsIn [] y h = cc
    last_with-IsIn (x ∷ xs) y h = elim (from_one (last_with key k xs) (is_key (key x) k) x y h) [
      | inl e ↦ let (m, t) = last_with-IsIn xs y e in (Memᴰ.tail m, t)
      | inr (e, t) ↦ (Memᴰ.head (sym e), ap (λ a. is_key (key a) k) (sym e) ∙ t)
    ]

    last_with-none :
        (xs : List A) (y : A) → Memᴰ y xs → last_with key k xs ≡ none → is_key (key y) k ≡ false
    last_with-none [] y m h = elim m [ ]
    last_with-none (x ∷ xs) y (Memᴰ.head e) h =
        ap (λ a. is_key (key a) k) e ∙ (from_none (last_with key k xs) (is_key (key x) k) x h).1
    last_with-none (x ∷ xs) y (Memᴰ.tail m) h =
        last_with-none xs y m (from_none (last_with key k xs) (is_key (key x) k) x h).0

    -- An entry that no other has the key of is found by it.
    last_with-found :
        (xs : List A) (y : A)
        → Memᴰ y xs
        → is_key (key y) k ≡ true
        → ((x : A) → Memᴰ x xs → is_key (key x) k ≡ true → x ≡ y)
        → last_with key k xs ≡ some y
    last_with-found xs y m t unique = elim (Option-cases (last_with key k xs)) [
      | inl e ↦ cc (last_with-none xs y m e)
      | inr (z, e) ↦ let (i, u) = last_with-IsIn xs z e in e ∙ ap some (unique z i u)
    ]

is_key_refl : (s : String) → str_eq s s ≡ true
is_key_refl s = (str_eq_iff s s).1 refl

-- No other result has the step of a result, or its name if it has no step.
unfoldable pub IsIdentified : List TestResult → Type 0
IsIdentified rs =
    (r x : TestResult)
    → Memᴰ r rs
    → Memᴰ x rs
    → ((k : String) → step_key r ≡ some k → is_key (step_key x) k ≡ true → x ≡ r)
      × (step_key r ≡ none → is_key (name_key x) r.test_name ≡ true → x ≡ r)

counterpart_lem :
    (rs : List TestResult) (r : TestResult)
    → IsIdentified rs
    → Memᴰ r rs
    → counterpart rs r ≡ some r
unfolding counterpart IsIdentified
counterpart_lem rs r d m = elim (Option-cases (step_key r)) [
  | inl e ↦ rw e (
      last_with-found name_key r.test_name rs r m (is_key_refl r.test_name)
        (λ x i t. (d r x m i).1 e t))
  | inr (k, e) ↦ rw e (
      ap (λ o. or_try o (last_with name_key r.test_name rs))
        (last_with-found step_key k rs r m (ap (λ o. is_key o k) e ∙ is_key_refl k)
          (λ x i t. (d r x m i).0 k e t)))
]

same_result_refl : (s : ResultStatus) → same_result s s ≡ true
same_result_refl step_passed = refl
same_result_refl step_failed = refl

-- A step whose result has the status that it had before, and did not take much longer.
abbrev pub IsSteady : StepDiff → Type 0
IsSteady d = (d.status_changed ≡ false) × (is_regression d.duration_regression_percent ≡ false)

-- A result that repeats one of an earlier run: the same step, name and status, and at most a fifth longer. Whatever else
-- there is, as the id of the row, may differ.
pub record IsRepeat (before after : TestResult) : Type 0 where
  pub step : after.step_id ≡ before.step_id
  pub name : after.test_name ≡ before.test_name
  pub status : after.status ≡ before.status
  pub duration : 0 < before.duration_ms → 5 * after.duration_ms ≤ 6 * before.duration_ms

abbrev pub Repeats : List TestResult → List TestResult → Type 0
Repeats [] [] = Unit
Repeats (b ∷ bs) (r ∷ rs) = IsRepeat b r × Repeats bs rs
Repeats _ _ = ⊥

not_much_longer :
    (d e : ℕ)
    → (0 < d → 5 * e ≤ 6 * d)
    → is_regression (if ltb 0 d then some (record { part = difference e d; whole = d }) else none)
      ≡ false
not_much_longer d e h = elim (Bool-cases (ltb 0 d)) [
  | inr p ↦ rw p refl
  | inl p ↦
      let k = h (ltb→lt 0 d p) in
      rw p (elim (Bool-cases (leb d e)) [ inr q ↦ rw q refl | inl q ↦ rw q (ground (arith, k, q)) ])
]

counterpart-repeat :
    (bs : List TestResult) (b r : TestResult) → IsRepeat b r → counterpart bs r ≡ counterpart bs b
unfolding counterpart
counterpart-repeat bs b r h = rw (h.step, h.name) refl

step_diff-IsSteady :
    (bs : List TestResult) (b r : TestResult)
    → IsIdentified bs
    → Memᴰ b bs
    → IsRepeat b r
    → IsSteady (step_diff bs r)
unfolding step_diff
step_diff-IsSteady bs b r d m h =
    rw (counterpart-repeat bs b r h, counterpart_lem bs b d m)
      (
        rw (h.status, same_result_refl b.status) refl,
        not_much_longer b.duration_ms r.duration_ms h.duration,
      )

step_diff-All :
    (all bs rs : List TestResult)
    → IsIdentified all
    → ((b : TestResult) → Memᴰ b bs → Memᴰ b all)
    → Repeats bs rs
    → All IsSteady (map (step_diff all) rs)
step_diff-All all [] [] d h k = tt
step_diff-All all (b ∷ bs) (r ∷ rs) d h k = (
  step_diff-IsSteady all b r d (h b (Memᴰ.head refl)) k.0,
  step_diff-All all bs rs d (λ x m. h x (Memᴰ.tail m)) k.1,
)
step_diff-All all [] (r ∷ rs) d h k = absurd k
step_diff-All all (b ∷ bs) [] d h k = absurd k

count_of-none {ℓ} :
    {A : Type ℓ} (test : A → Bool) (xs : List A)
    → All (λ x. test x ≡ false) xs
    → count_of test xs ≡ 0
count_of-none test [] h = refl
count_of-none test (x ∷ xs) h = rw h.0 (omega (arith, count_of-none test xs h.1))

All-map {ℓ κ ι} :
    {A : Type ℓ} (P : A → Type κ) (Q : A → Type ι) (f : (x : A) → P x → Q x) (xs : List A)
    → All P xs
    → All Q xs
All-map P Q f [] h = tt
All-map P Q f (x ∷ xs) h = (f x h.0, All-map P Q f xs h.1)

unfoldable pub HasDistinctSuites : List SuiteRevision → Type 0
HasDistinctSuites suites =
    (r x : SuiteRevision)
    → Memᴰ r suites
    → Memᴰ x suites
    → str_eq x.suite_name r.suite_name ≡ true
    → x ≡ r

same_number : (n : ℕ) → (n == n) ≡ true
same_number n = ground arith

same_suites :
    (rs xs : List SuiteRevision)
    → HasDistinctSuites rs
    → ((r : SuiteRevision) → Memᴰ r xs → Memᴰ r rs)
    → All (λ s. s.changed ≡ false) (compare_suite_revisions xs rs)
unfolding HasDistinctSuites compare_suite_revisions
same_suites rs [] d h = tt
same_suites rs (x ∷ xs) d h = (
  rw
      (last_with-found suite_key x.suite_name rs x (h x (Memᴰ.head refl)) (is_key_refl x.suite_name)
        (λ y m t. d x y (h x (Memᴰ.head refl)) m t))
      (rw (same_number x.revision_number) refl),
  same_suites rs xs d (λ r m. h r (Memᴰ.tail m)),
)

differs_refl : (o : Option String) → differs o o ≡ false
differs_refl none = refl
differs_refl (some s) = rw (is_key_refl s) refl

same_images :
    (rs : List ImageReference) (names : List String)
    → All (λ c. c.changed ≡ false) (map (compare_image rs rs) names)
unfolding compare_image
same_images rs [] = tt
same_images rs (n ∷ names) = (differs_refl (image_of n rs), same_images rs names)

-- A comparison that finds nothing changed.
unfoldable pub IsUnchanged : TestRunComparison → Type 0
IsUnchanged c =
    (c.environment_changed ≡ false)
    × All (λ s. s.changed ≡ false) c.suites
    × All (λ i. i.changed ≡ false) c.image_references
    × All IsSteady c.step_diffs
    × (c.summary.steps_with_status_change ≡ 0)
    × (c.summary.steps_with_timing_regression ≡ 0)

-- A run is compared with an earlier run of the same environment, suites and images, whose results it repeats one by one: with
-- the same step, name and status, and at most a fifth longer. If no two results of the earlier run share a step or,
-- without a step, a name, and no two suites share a name, then the comparison finds nothing changed.
pub compare_same :
    (find_first : (ComparisonRun → Bool) → Option ComparisonRun) (current b : ComparisonRun)
    → find_baseline_run find_first current ≡ some b
    → b.environment_config_revision ≡ current.environment_config_revision
    → b.suite_revisions ≡ current.suite_revisions
    → read_image_references b.execution_metadata ≡ read_image_references current.execution_metadata
    → Repeats b.results current.results
    → HasDistinctSuites current.suite_revisions
    → IsIdentified b.results
    → IsUnchanged (compare find_first current)
unfolding compare compared IsUnchanged build_step_diffs summarize compare_image_references
compare_same find_first current b found same_environment suites images repeats distinct identified =
    let steady = step_diff-All b.results b.results current.results identified (λ r m. m) repeats in
    rw found (
      rw same_environment (
        rw suites (
          rw images (
            differs_refl (environment_id current.environment_config_revision),
            same_suites current.suite_revisions current.suite_revisions distinct (λ r m. m),
            same_images (read_image_references current.execution_metadata) _,
            steady,
            count_of-none (λ d. d.status_changed) _ (All-map IsSteady _ (λ d h. h.0) _ steady),
            count_of-none (λ d. is_regression d.duration_regression_percent) _
                (All-map IsSteady _ (λ d h. h.1) _ steady),
          ))))
