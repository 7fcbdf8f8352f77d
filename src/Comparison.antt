-- ===== src/Comparison.antt =====
-- The comparison of a run with an earlier one (test-runs/test-run-comparison.service.ts). The first row of a query in
-- descending order is a parameter; a percentage is the exact fraction.
pub mod Diffs
pub mod Revisions
pub mod Service
pub mod Images
pub mod Unchanged
mod Tests
use testing_environment.Common.{
  ◌+◌, ◌||◌, ◌==◌, ℕ, ◌-◌, ◌*◌, String, Bool, true, false, not, ◌&&◌, Option, none, some, List, [],
  ◌∷◌, ◌++◌, map, length, ltb, leb, or_else, or_try, is_some, holds, if◌then◌else◌, str_eq,
  ℕ_discrete,
}
use testing_environment.Common.Time.{iso_text}
use testing_environment.Runs.Status.{TestRunStatus, passed, same_status}
use testing_environment.Runs.Run.{TestRun}
use testing_environment.Diagnosis.{
  TestResult, ResultStatus, step_passed, step_failed, ImageReference, Metadata,
}
use testing_environment.Diagnosis.Context.{read_execution_metadata}
use testing_environment.Diagnosis.Infrastructure.{is_given}

pub record EnvironmentRevision : Type 0 where
  pub id : String
  pub revision_number : ℕ

pub record SuiteRevision : Type 0 where
  pub suite_name : String
  pub revision_number : ℕ

pub record ComparisonRun : Type 0 where
  pub id : String
  pub project_id : String
  pub row : TestRun
  pub execution_metadata : Option Metadata
  pub results : List TestResult
  pub environment_config_revision : Option EnvironmentRevision
  pub suite_revisions : List SuiteRevision

-- Is a text that may be missing this one?
abbrev pub is_key : Option String → String → Bool
is_key none k = false
is_key (some s) k = str_eq s k

-- `new Map(entries).get(k)`: of the entries with this key, the last.
abbrev pub last_with {ℓ} : {A : Type ℓ} → (A → Option String) → String → List A → Option A
last_with key k [] = none
last_with key k (x ∷ xs) = or_try (last_with key k xs) (if is_key (key x) k then some x else none)

-- `a !== b` of two texts that may be missing
abbrev pub differs : Option String → Option String → Bool
differs none none = false
differs none (some _) = true
differs (some _) none = true
differs (some a) (some b) = not (str_eq a b)
