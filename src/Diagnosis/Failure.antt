-- ===== src/Diagnosis/Failure.antt =====
-- The primary failure of a run (`buildPrimaryFailure` of test-runs/test-run-diagnosis.service.ts).
use testing_environment.Common.{
  ℕ, String, Bool, true, false, not, ◌||◌, Option, none, some, List, or_else, or_try, if◌then◌else◌,
}
use testing_environment.Common.Text.{show}
use testing_environment.Runs.Status.{TestRunStatus, passed, cancelled, same_status}
use testing_environment.Runs.Run.{TestRun, FailureCategory, test_assertion}
use testing_environment.Runs.Rows.{status_name}
use testing_environment.Suites.Flow.{Json, null, number}
use testing_environment.Diagnosis.{
  TestResult, EnvironmentResult, HealthcheckResult, PhaseResult, phase_failed,
}
use testing_environment.Diagnosis.Context.{first_failed}
use testing_environment.Diagnosis.Evidence.{StoredAssertion, read_assertions, failed_assertion}
use testing_environment.Diagnosis.Engine.{is_environment_validation, is_healthcheck}
use testing_environment.Diagnosis.Phases.{is_ended}

pub data FailureKind : Type 0 where
  cancelled_kind test_step environment_kind healthcheck_kind infrastructure : FailureKind

-- What only a failed step of a test has.
pub record StepFailure : Type 0 where
  pub test_result_id : String
  pub step_id : Option String
  pub suite_name : String
  pub test_name : String
  pub assertions : List StoredAssertion

pub record PrimaryFailure : Type 0 where
  pub kind : FailureKind
  pub phase : String
  pub message : String
  pub expected : Option Json
  pub actual : Option Json
  pub step : Option StepFailure

unfoldable status_json : Option ℕ → Option Json
unfolding show
status_json none = none
status_json (some n) = some (number (show n))

-- `value ?? other`
abbrev or_not_null : Option Json → Option Json → Option Json
or_not_null none other = other
or_not_null (some null) other = other
or_not_null (some v) other = some v

abbrev expected_of : Option StoredAssertion → Option Json
expected_of none = none
expected_of (some a) = a.expected

abbrev actual_of : Option StoredAssertion → Option Json
actual_of none = none
actual_of (some a) = a.actual

abbrev message_of : Option StoredAssertion → Option String
message_of none = none
message_of (some a) = a.message

unfoldable pub primary_failure_from_test_result : TestResult → PrimaryFailure
unfolding read_assertions failed_assertion show status_json
primary_failure_from_test_result result =
    let assertions = read_assertions result.assertion_results in
    let failed = failed_assertion assertions in
    let step : StepFailure = record {
      test_result_id = result.id;
      step_id = result.step_id;
      suite_name = result.suite_name;
      test_name = result.test_name;
      assertions = assertions;
    } in
    record {
      kind = test_step;
      phase = "tests";
      message = or_else (or_try result.error_message (message_of failed)) "Test step failed";
      expected = or_not_null (expected_of failed) (some (number (show result.expected_status)));
      actual = or_not_null (actual_of failed) (status_json result.actual_status);
      step = some step;
    }

abbrev pub is_test_assertion : Option FailureCategory → Bool
is_test_assertion (some test_assertion) = true
is_test_assertion _ = false

abbrev has_phase_failed : PhaseResult → Bool
has_phase_failed phase_failed = true
has_phase_failed _ = false

abbrev failure_of : FailureKind → String → String → PrimaryFailure
failure_of kind phase message = record {
  kind = kind;
  phase = phase;
  message = message;
  expected = none;
  actual = none;
  step = none;
}

unfoldable phase_name : Option TestRunStatus → String
unfolding status_name
phase_name none = "infrastructure"
phase_name (some status) = status_name status

-- The failure of a result, if there is one.
unfoldable of_result_or : Option TestResult → PrimaryFailure → PrimaryFailure
unfolding primary_failure_from_test_result
of_result_or none other = other
of_result_or (some result) other = primary_failure_from_test_result result

unfoldable health_failure : TestRun → HealthcheckResult → PrimaryFailure
unfolding status_json
health_failure run health = record {
  kind = healthcheck_kind;
  phase = "healthcheck";
  message =
      or_else (or_try health.message (or_try run.error_message run.status_reason))
        "Healthcheck failed";
  expected = status_json health.expected_status;
  actual = status_json health.actual_status;
  step = none;
}

-- The failure of a run that was neither cancelled nor stopped by an assertion.
unfoldable pub failure_outside_tests :
    TestRun → Option TestResult → EnvironmentResult → HealthcheckResult → PrimaryFailure
unfolding of_result_or phase_name show health_failure
failure_outside_tests run failed environment health =
    if is_environment_validation run.failure_category || has_phase_failed environment.status
    then failure_of environment_kind "validation" (
        or_else (or_try environment.message (or_try run.error_message run.status_reason))
          "Environment validation failed")
    else if is_healthcheck run.failure_category || has_phase_failed health.status
    then health_failure run health
    else of_result_or failed (
        failure_of infrastructure (phase_name run.current_phase) (
          or_else (or_try run.error_message run.status_reason) "Run failed before tests completed"))

unfoldable pub build_primary_failure :
    TestRun → List TestResult → EnvironmentResult → HealthcheckResult → Option PrimaryFailure
unfolding is_ended same_status first_failed failure_outside_tests primary_failure_from_test_result
    of_result_or
build_primary_failure run results environment health =
    let failed = first_failed results in
    if not (is_ended run.status) || same_status run.status passed
    then none
    else if same_status run.status cancelled
    then some (
        failure_of cancelled_kind "cancelled"
          (or_else (or_try run.cancellation_reason run.status_reason) "Run was cancelled"))
    else if is_test_assertion run.failure_category
    then some (of_result_or failed (failure_outside_tests run failed environment health))
    else some (failure_outside_tests run failed environment health)
