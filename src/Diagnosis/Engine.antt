-- ===== src/Diagnosis/Engine.antt =====
-- FailureDiagnosisEngine: which diagnosis a run gets
-- (test-runs/failure-diagnosis/failure-diagnosis.engine.ts).
use testing_environment.Common.{
  Bool, true, false, not, ◌&&◌, ◌||◌, Option, none, some, List, if◌then◌else◌, is_some,
}
use testing_environment.Common.Regex.{occurs}
use testing_environment.Common.Result.{Result, ok, ◌>>=◌}
use testing_environment.Runs.Status.{
  passed, test_failed, timed_out, infra_failed, cancelled, waiting_for_healthcheck, same_status,
}
use testing_environment.Runs.Run.{
  FailureCategory, environment_validation, container_start, healthcheck, timeout,
}
use testing_environment.Diagnosis.{
  TestResult, DiagnosisRun, LogChunkPreview, RunDiagnosis, RangeError,
}
use testing_environment.Diagnosis.Patterns.{
  image_pull_pattern, network_pattern, port_conflict_pattern, timeout_pattern,
  container_exit_pattern,
}
use testing_environment.Diagnosis.Context.{
  Context, build_context, phase_timestamp, is_terminal_failure_status,
}
use testing_environment.Diagnosis.Infrastructure.{
  is_given, is_image_pull, is_network, diagnose_cancelled, diagnose_cleanup_failed,
  diagnose_compose_validation, diagnose_image_pull,
}
use testing_environment.Diagnosis.Containers.{diagnose_container_exited, diagnose_port_conflict}
use testing_environment.Diagnosis.Health.{
  diagnose_healthcheck_timeout, diagnose_healthcheck_failure, diagnose_network_failure,
  diagnose_internal,
}
use testing_environment.Diagnosis.Steps.{diagnose_step}

abbrev pub is_environment_validation : Option FailureCategory → Bool
is_environment_validation (some environment_validation) = true
is_environment_validation _ = false

abbrev pub is_container_start : Option FailureCategory → Bool
is_container_start (some container_start) = true
is_container_start _ = false

abbrev pub is_healthcheck : Option FailureCategory → Bool
is_healthcheck (some healthcheck) = true
is_healthcheck _ = false

abbrev pub is_timeout : Option FailureCategory → Bool
is_timeout (some timeout) = true
is_timeout _ = false

unfoldable pub is_cleanup_only_failure : Context → Bool
unfolding same_status
is_cleanup_only_failure context =
    let run = context.run.row in
    is_given run.cleanup_error
    && not (is_some context.failed_result)
    && not (is_given run.error_message)
    && not (is_some run.failure_category)
    && not (same_status run.status cancelled)

abbrev pub diagnose_failed_result : Context → Option TestResult → RunDiagnosis
diagnose_failed_result context none = diagnose_internal context none
diagnose_failed_result context (some result) = diagnose_step context result

unfoldable pub diagnose_test_failure : Context → RunDiagnosis
unfolding diagnose_internal diagnose_step
diagnose_test_failure context = diagnose_failed_result context context.failed_result

unfoldable pub diagnose_timeout : Context → Result RangeError RunDiagnosis
unfolding occurs timeout_pattern phase_timestamp diagnose_healthcheck_timeout diagnose_internal
diagnose_timeout context =
    let run = context.run.row in
    if is_healthcheck run.failure_category
      || is_some (phase_timestamp run.phase_timestamps waiting_for_healthcheck)
      || occurs timeout_pattern context.message
    then diagnose_healthcheck_timeout context
    else ok (diagnose_internal context (some "Run timed out before completing all phases."))

unfoldable pub diagnose_infra_failure : Context → Result RangeError RunDiagnosis
unfolding occurs timeout_pattern image_pull_pattern port_conflict_pattern container_exit_pattern
    network_pattern diagnose_compose_validation diagnose_image_pull diagnose_container_exited
    diagnose_port_conflict diagnose_healthcheck_timeout diagnose_healthcheck_failure
    diagnose_network_failure diagnose_internal diagnose_timeout
diagnose_infra_failure context =
    let category = context.run.row.failure_category in
    if is_environment_validation category
    then diagnose_compose_validation context
    else if is_image_pull category || occurs image_pull_pattern context.message
    then ok (diagnose_image_pull context)
    else if is_container_start category
    then (if occurs port_conflict_pattern context.message
        then diagnose_port_conflict context
        else if occurs container_exit_pattern context.message
        then diagnose_container_exited context
        else diagnose_container_exited context)
    else if is_healthcheck category
    then (if occurs timeout_pattern context.message
        then diagnose_healthcheck_timeout context
        else diagnose_healthcheck_failure context)
    else if is_network category || occurs network_pattern context.message
    then ok (diagnose_network_failure context)
    else if is_timeout category
    then diagnose_timeout context
    else ok (diagnose_internal context none)

-- The diagnosis of a run that has ended in a failure.
unfoldable pub diagnose_failure : Context → Result RangeError RunDiagnosis
unfolding same_status is_cleanup_only_failure diagnose_cancelled diagnose_cleanup_failed
    diagnose_test_failure diagnose_timeout diagnose_infra_failure diagnose_internal
diagnose_failure context =
    let status = context.run.row.status in
    if same_status status cancelled
    then ok (diagnose_cancelled context)
    else if is_cleanup_only_failure context
    then ok (diagnose_cleanup_failed context)
    else if same_status status test_failed
    then ok (diagnose_test_failure context)
    else if same_status status timed_out
    then diagnose_timeout context
    else if same_status status infra_failed
    then diagnose_infra_failure context
    else ok (diagnose_internal context none)

unfoldable pub diagnose :
    DiagnosisRun → List TestResult → List LogChunkPreview → Result RangeError (Option RunDiagnosis)
unfolding same_status is_terminal_failure_status build_context diagnose_failure
diagnose run results previews =
    if same_status run.row.status passed || not (is_terminal_failure_status run.row.status)
    then ok none
    else (do d ← diagnose_failure (build_context run results previews); ok (some d))
