-- ===== src/Comparison/Diffs.antt =====
-- The comparison of the results of two runs: `buildStepDiffs` and the summary of
-- test-runs/test-run-comparison.service.ts.
use testing_environment.Common.{
  ◌+◌, ℕ, ◌-◌, ◌*◌, String, Bool, true, false, not, Option, none, some, List, [], ◌∷◌, map, ltb,
  leb, or_try, if◌then◌else◌,
}
use testing_environment.Diagnosis.{TestResult, ResultStatus, step_passed, step_failed}
use testing_environment.Diagnosis.Infrastructure.{is_given}
use testing_environment.Comparison.{last_with}

abbrev pub same_result : ResultStatus → ResultStatus → Bool
same_result step_passed step_passed = true
same_result step_failed step_failed = true
same_result _ _ = false

-- The difference of two durations, and what it is a part of.
pub data Difference : Type 0 where
  longer shorter : ℕ → Difference

abbrev pub difference : ℕ → ℕ → Difference
difference a b = if leb b a then longer (a - b) else shorter (b - a)

pub record Share : Type 0 where
  pub part : Difference
  pub whole : ℕ

pub record StepDiff : Type 0 where
  pub step_id : Option String
  pub test_name : String
  pub current_status : ResultStatus
  pub baseline_status : Option ResultStatus
  pub status_changed : Bool
  pub current_actual_status : Option ℕ
  pub baseline_actual_status : Option ℕ
  pub current_duration_ms : ℕ
  pub baseline_duration_ms : Option ℕ
  pub duration_regression_ms : Option Difference
  pub duration_regression_percent : Option Share

-- The key of a result in `baselineByStepId`, which leaves out results without a step.
abbrev pub step_key : TestResult → Option String
step_key r = if is_given r.step_id then r.step_id else none

abbrev pub name_key : TestResult → Option String
name_key r = some r.test_name

abbrev pub by_step : Option String → List TestResult → Option TestResult
by_step none results = none
by_step (some k) results = last_with step_key k results

-- The result of the earlier run that a result is compared with.
unfoldable pub counterpart : List TestResult → TestResult → Option TestResult
counterpart baseline current =
    or_try (by_step (step_key current) baseline) (last_with name_key current.test_name baseline)

abbrev pub actual_status_of : Option TestResult → Option ℕ
actual_status_of none = none
actual_status_of (some b) = b.actual_status

abbrev pub status_changed_from : TestResult → Option TestResult → Bool
status_changed_from current none = false
status_changed_from current (some b) = not (same_result b.status current.status)

abbrev pub regression_from : TestResult → Option TestResult → Option Difference
regression_from current none = none
regression_from current (some b) = some (difference current.duration_ms b.duration_ms)

abbrev pub share_from : TestResult → Option TestResult → Option Share
share_from current none = none
share_from current (some b) =
    if ltb 0 b.duration_ms
    then some
        (record { part = difference current.duration_ms b.duration_ms; whole = b.duration_ms })
    else none

abbrev pub status_of : Option TestResult → Option ResultStatus
status_of none = none
status_of (some b) = some b.status

abbrev pub duration_of : Option TestResult → Option ℕ
duration_of none = none
duration_of (some b) = some b.duration_ms

unfoldable pub step_diff : List TestResult → TestResult → StepDiff
unfolding counterpart
step_diff results current =
    let baseline = counterpart results current in
    record {
      step_id = current.step_id;
      test_name = current.test_name;
      current_status = current.status;
      baseline_status = status_of baseline;
      status_changed = status_changed_from current baseline;
      current_actual_status = current.actual_status;
      baseline_actual_status = actual_status_of baseline;
      current_duration_ms = current.duration_ms;
      baseline_duration_ms = duration_of baseline;
      duration_regression_ms = regression_from current baseline;
      duration_regression_percent = share_from current baseline;
    }

unfoldable pub build_step_diffs : List TestResult → List TestResult → List StepDiff
unfolding step_diff
build_step_diffs current baseline = map (step_diff baseline) current

-- `(percent ?? 0) > 20`
abbrev pub is_regression : Option Share → Bool
is_regression none = false
is_regression (some s) = elim s.part [ longer n ↦ ltb (20 * s.whole) (100 * n) | shorter n ↦ false ]

-- `entries.filter(test).length`
abbrev pub count_of {ℓ} : {A : Type ℓ} → (A → Bool) → List A → ℕ
count_of test [] = 0
count_of test (x ∷ xs) = (if test x then 1 else 0) + count_of test xs

pub record Summary : Type 0 where
  pub steps_with_status_change : ℕ
  pub steps_with_timing_regression : ℕ

unfoldable pub summarize : List StepDiff → Summary
summarize diffs = record {
  steps_with_status_change = count_of (λ d. d.status_changed) diffs;
  steps_with_timing_regression = count_of (λ d. is_regression d.duration_regression_percent) diffs;
}
