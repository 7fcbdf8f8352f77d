-- ===== src/Diagnosis/Service.antt =====
-- TestRunDiagnosisService: the failure of a run as its clients see it
-- (`buildDiagnosis` of test-runs/test-run-diagnosis.service.ts).
use testing_environment.Common.{
  ℕ, suc, String, Bool, true, false, not, ◌&&◌, ◌||◌, Option, none, some, List, [], ◌∷◌, or_else,
  or_try, is_some, ltb, if◌then◌else◌,
}
use testing_environment.Common.Text.{◌<>◌}
use testing_environment.Common.Result.{Result, ok, ◌>>=◌}
use testing_environment.Runs.Status.{
  TestRunStatus, phase_statuses, validating_environment, executing_tests, passed, same_status,
}
use testing_environment.Runs.Run.{TestRun, FailureCategory}
use testing_environment.Runs.Rows.{status_name}
use testing_environment.Diagnosis.{
  TestResult, DiagnosisRun, Metadata, EnvironmentResult, HealthcheckResult, PhaseResult,
  phase_passed, phase_failed, phase_skipped, not_reached, LogChunkPreview, RunDiagnosis, RangeError,
}
use testing_environment.Diagnosis.Context.{read_execution_metadata, phase_timestamp}
use testing_environment.Diagnosis.Infrastructure.{is_given}
use testing_environment.Diagnosis.Engine.{diagnose, is_environment_validation, is_healthcheck}
use testing_environment.Diagnosis.Phases.{is_failure}
use testing_environment.Diagnosis.Failure.{PrimaryFailure, build_primary_failure}

pub record InfrastructureDiagnostics : Type 0 where
  pub cleanup_error : Option String
  pub runner_id : Option String
  pub error_message : Option String

pub record TestRunDiagnosis : Type 0 where
  pub failure_category : Option FailureCategory
  pub headline : String
  pub primary_failure : Option PrimaryFailure
  pub environment_result : EnvironmentResult
  pub healthcheck_result : HealthcheckResult
  pub infrastructure : InfrastructureDiagnostics
  pub structured_diagnosis : Option RunDiagnosis

-- `TEST_RUN_PHASE_STATUSES.indexOf(status)`, where -1 is `none`
unfoldable index_in : TestRunStatus → List TestRunStatus → Option ℕ
unfolding same_status
index_in status [] = none
index_in status (s ∷ rest) =
    let later = index_in status rest in if same_status s status then some 0 else next later
  where
    next : Option ℕ → Option ℕ
    next none = none
    next (some n) = some (suc n)

-- How the phase of a run compares with another; if one of them is no phase, `otherwise`.
abbrev is_later : Option ℕ → Option ℕ → Bool → Bool
is_later (some current) (some target) otherwise = ltb target current
is_later _ _ otherwise = otherwise

unfoldable pub has_reached_phase : TestRun → TestRunStatus → Bool
unfolding phase_timestamp index_in same_status is_failure
has_reached_phase run status =
    let target = index_in status phase_statuses in
    if is_some (phase_timestamp run.phase_timestamps status)
    then true
    else is_later (index_in run.status phase_statuses) target
        (same_status run.status passed || (is_failure run.status && is_some target))

abbrev is_disabled : Option Bool → Bool
is_disabled (some b) = not b
is_disabled none = false

abbrev environment_of : PhaseResult → Option Bool → Option String → EnvironmentResult
environment_of status validation_passed message = record {
  status = status;
  validation_passed = validation_passed;
  message = message;
}

unfoldable pub build_environment_result : TestRun → Metadata → EnvironmentResult
unfolding has_reached_phase
build_environment_result run metadata = or_else metadata.environment_result (
    if is_environment_validation run.failure_category
    then environment_of phase_failed (some false) (or_try run.error_message run.status_reason)
    else if has_reached_phase run validating_environment
    then environment_of phase_passed (some true) none
    else if is_disabled metadata.uses_docker_compose
    then environment_of phase_skipped (some true) none
    else environment_of not_reached none none)

abbrev healthcheck_of : PhaseResult → Option String → HealthcheckResult
healthcheck_of status message = record {
  status = status;
  expected_status = none;
  actual_status = none;
  duration_ms = none;
  url = none;
  message = message;
}

unfoldable pub build_healthcheck_result : TestRun → Metadata → HealthcheckResult
unfolding has_reached_phase same_status
build_healthcheck_result run metadata = or_else metadata.healthcheck_result (
    if is_healthcheck run.failure_category
    then healthcheck_of phase_failed (or_try run.error_message run.status_reason)
    else if has_reached_phase run executing_tests || same_status run.status passed
    then healthcheck_of phase_passed none
    else healthcheck_of not_reached none)

abbrev pub build_infrastructure : TestRun → InfrastructureDiagnostics
build_infrastructure run = record {
  cleanup_error = run.cleanup_error;
  runner_id = run.runner_id;
  error_message = run.error_message;
}

abbrev failure_message : Option PrimaryFailure → Option String
failure_message none = none
failure_message (some f) = some f.message

unfoldable pub build_headline : TestRun → Option PrimaryFailure → String
unfolding same_status status_name
build_headline run failure =
    if same_status run.status passed
    then "All tests passed"
    else if is_given (failure_message failure)
    then or_else (failure_message failure) ""
    else if is_given run.status_reason
    then or_else run.status_reason ""
    else if is_given run.error_message
    then or_else run.error_message ""
    else "Run finished with status " <> status_name run.status

unfoldable pub build_diagnosis :
    DiagnosisRun → List TestResult → List LogChunkPreview → Result RangeError TestRunDiagnosis
unfolding build_environment_result build_healthcheck_result build_primary_failure build_headline
    diagnose
build_diagnosis run results previews =
    let metadata = read_execution_metadata run.execution_metadata in
    let environment = build_environment_result run.row metadata in
    let health = build_healthcheck_result run.row metadata in
    let failure = build_primary_failure run.row results environment health in
    do
      structured ← diagnose run results previews
      ok (record {
        failure_category = run.row.failure_category;
        headline = build_headline run.row failure;
        primary_failure = failure;
        environment_result = environment;
        healthcheck_result = health;
        infrastructure = build_infrastructure run.row;
        structured_diagnosis = structured;
      })
