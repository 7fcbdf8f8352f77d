-- ===== src/Comparison/Service.antt =====
-- The earlier run, and the comparison with it: `findBaselineRun` and `compare` of
-- test-runs/test-run-comparison.service.ts.
use testing_environment.Common.{
  ℕ, String, Bool, false, ◌&&◌, Option, none, some, List, [], ltb, or_else, str_eq,
}
use testing_environment.Common.Time.{iso_text}
use testing_environment.Runs.Status.{TestRunStatus, passed, same_status}
use testing_environment.Diagnosis.{TestResult, ImageReference, Metadata}
use testing_environment.Diagnosis.Context.{read_execution_metadata}
use testing_environment.Comparison.{ComparisonRun, EnvironmentRevision, SuiteRevision, differs}
use testing_environment.Comparison.Diffs.{StepDiff, Summary, build_step_diffs, summarize}
use testing_environment.Comparison.Revisions.{
  compare_suite_revisions, compare_image_references, ImageComparison, SuiteComparison,
}

unfoldable pub read_image_references : Option Metadata → List ImageReference
read_image_references value = or_else (read_execution_metadata value).image_references []

abbrev ended_before : ℕ → Option ℕ → Bool
ended_before finished none = false
ended_before finished (some at) = ltb at finished

-- `where` of the query for the earlier run
unfoldable pub is_baseline : ComparisonRun → ℕ → ComparisonRun → Bool
unfolding same_status
is_baseline current finished run =
    str_eq run.project_id current.project_id
    && same_status run.row.status passed
    && ended_before finished run.row.finished_at

pub record RunRef : Type 0 where
  pub id : String
  pub status : TestRunStatus
  pub finished_at : Option String

abbrev iso : Option ℕ → Option String
iso none = none
iso (some ms) = some (iso_text ms)

abbrev run_ref : ComparisonRun → RunRef
run_ref run = record { id = run.id; status = run.row.status; finished_at = iso run.row.finished_at }

pub record TestRunComparison : Type 0 where
  pub baseline_run : Option RunRef
  pub current_run : RunRef
  pub current_environment : Option EnvironmentRevision
  pub baseline_environment : Option EnvironmentRevision
  pub environment_changed : Bool
  pub suites : List SuiteComparison
  pub image_references : List ImageComparison
  pub step_diffs : List StepDiff
  pub summary : Summary

-- What the comparison reads of a run, or of one that there is not.
pub record Compared : Type 0 where
  pub run : Option RunRef
  pub environment : Option EnvironmentRevision
  pub suites : List SuiteRevision
  pub images : List ImageReference
  pub results : List TestResult

unfoldable pub compared : Option ComparisonRun → Compared
unfolding read_image_references
compared none = record { run = none; environment = none; suites = []; images = []; results = [] }
compared (some run) = record {
  run = some (run_ref run);
  environment = run.environment_config_revision;
  suites = run.suite_revisions;
  images = read_image_references run.execution_metadata;
  results = run.results;
}

abbrev pub environment_id : Option EnvironmentRevision → Option String
environment_id none = none
environment_id (some e) = some e.id

module _ (find_first : (ComparisonRun → Bool) → Option ComparisonRun) where
  abbrev baseline_before : ComparisonRun → Option ℕ → Option ComparisonRun
  unfolding is_baseline
  baseline_before current none = none
  baseline_before current (some finished) = find_first (is_baseline current finished)

  unfoldable pub find_baseline_run : ComparisonRun → Option ComparisonRun
  unfolding is_baseline
  find_baseline_run current = baseline_before current current.row.finished_at

  unfoldable pub compare : ComparisonRun → TestRunComparison
  unfolding find_baseline_run compared build_step_diffs summarize compare_suite_revisions
      compare_image_references read_image_references
  compare current =
      let baseline = compared (find_baseline_run current) in
      let diffs = build_step_diffs current.results baseline.results in
      record {
        baseline_run = baseline.run;
        current_run = run_ref current;
        current_environment = current.environment_config_revision;
        baseline_environment = baseline.environment;
        environment_changed =
            differs (environment_id current.environment_config_revision)
              (environment_id baseline.environment);
        suites = compare_suite_revisions current.suite_revisions baseline.suites;
        image_references =
            compare_image_references (read_image_references current.execution_metadata)
              baseline.images;
        step_diffs = diffs;
        summary = summarize diffs;
      }
