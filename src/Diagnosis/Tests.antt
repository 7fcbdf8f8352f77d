-- ===== src/Diagnosis/Tests.antt =====
-- Runs that failed, their diagnoses and timelines, and the theorems about them.
use testing_environment.Common.{
  ◌≤◌, String, ◌≡◌, refl, true, false, not, ◌&&◌, Option, none, some, List, [], ◌∷◌, All, is_some,
  map,
}
use testing_environment.Common.Time.{at}
use testing_environment.Common.Regex.{occurs}
use testing_environment.Common.Result.{Result, ok}
use testing_environment.Runs.Status.{
  passed, test_failed, infra_failed, timed_out, waiting_for_healthcheck, collecting_artifacts,
  is_terminal, same_status,
}
use testing_environment.Runs.Run.{
  TestRun, FailureCategory, test_assertion, environment_validation, image_pull, container_start,
  network, internal, iso,
}
use testing_environment.Runs.Updates.{transition_data}
use testing_environment.Suites.Flow.{
  Json, null, boolean, text as json, array, object, end, item, done, field,
}
use testing_environment.Diagnosis.{
  TestResult, step_failed, LogChunkPreview, from_error, DiagnosisRun, RunDiagnosis, RangeError,
  DiagnosisCategory, compose_validation_failed, image_pull_failed, container_exited, port_conflict,
  healthcheck_timeout, dns_network_failure, http_timeout, unexpected_status, assertion_mismatch,
  variable_extraction_failed, internal_runner_error,
}
use testing_environment.Diagnosis.Patterns.{image_pull_pattern, port_conflict_pattern}
use testing_environment.Diagnosis.Context.{
  sanitize_detail, build_context, is_terminal_failure_status, phase_timestamp,
}
use testing_environment.Diagnosis.Stringify.{json_text}
use testing_environment.Diagnosis.Engine.{diagnose, is_cleanup_only_failure}
use testing_environment.Diagnosis.Laws.{IsActionable, diagnose_lem}
use testing_environment.Diagnosis.Rules.{
  Diagnoses, expected_category, diagnose_infra_lem, diagnose_timed_out,
}
use testing_environment.Diagnosis.Phases.{phase_definitions, TimelineEntry}
use testing_environment.Diagnosis.Timeline.{build_phase_timeline}
use testing_environment.Diagnosis.Marks.{marked, ids}
use testing_environment.Diagnosis.Chronicle.{IsHonest, build_phase_timeline_lem}
use testing_environment.Diagnosis.Service.{TestRunDiagnosis, build_diagnosis}
use testing_environment.Diagnosis.Agreement.{build_diagnosis_lem}
use testing_environment.Diagnosis.Dates.{AreReadable, AreReadable-IsDated, transition_data-IsDated}

abbrev row : TestRun
row = record {
  status = test_failed;
  status_reason = none;
  failure_category = some test_assertion;
  current_phase = none;
  phase_timestamps = none;
  queue_job_id = none;
  queued_at = some 1783332000000;
  enqueued_at = none;
  claimed_at = none;
  cancellation_requested_at = none;
  cancel_requested_at = none;
  cancel_requested_by = none;
  cancellation_reason = none;
  runner_id = some "runner-1";
  lease_acquired_at = none;
  lease_expires_at = none;
  heartbeat_at = none;
  attempt = 1;
  cleanup_error = none;
  started_at = none;
  finished_at = some 1783332090000;
  total_tests = 1;
  passed_tests = 0;
  failed_tests = 1;
  duration_ms = none;
  error_message = none;
}

abbrev with_row : TestRun → DiagnosisRun
with_row r = record { row = r; execution_metadata = none }

abbrev result : TestResult
result = record {
  id = "result-1";
  step_id = some "step-1";
  step_type = "apiRequest";
  suite_name = "Suite";
  test_name = "Create user";
  status = step_failed;
  method = "POST";
  path = "/users";
  expected_status = 201;
  actual_status = some 500;
  duration_ms = 120;
  error_message = some "Test failed";
  assertion_results = none;
}

abbrev assertion : String → Json
assertion path = array (
    item
      (object (
        field "fieldPath" (json path) (
          field "operator" (json "equals") (
            field "passed" (boolean false)
              (field "message" (json "Expected user-1") (field "actual" (json "user-2") done))))))
      end)

abbrev infra : FailureCategory → String → DiagnosisRun
infra cause message = with_row (record row {
  status = infra_failed;
  failure_category = some cause;
  error_message = some message;
})

-- A run that waited for its health check and timed out in its tests.
abbrev late : TestRun
late = record row {
  status = timed_out;
  failure_category = none;
  phase_timestamps = some (
      ("WAITING_FOR_HEALTHCHECK", iso 1783332030000) ∷ ("EXECUTING_TESTS", iso 1783332060000) ∷ []);
  error_message = some "Step limit reached";
}

-- The category that is diagnosed, if one is.
abbrev category_of : Result RangeError (Option RunDiagnosis) → Option DiagnosisCategory
category_of (ok (some d)) = some d.category
category_of _ = none

unfoldable step_category : TestResult → Option DiagnosisCategory
unfolding diagnose
step_category r = category_of (diagnose (with_row row) (r ∷ []) [])

unfoldable run_category : DiagnosisRun → Option DiagnosisCategory
unfolding diagnose
run_category run = category_of (diagnose run [] [])

steps :
    (step_category
        (record result { error_message = some "The operation was aborted due to timeout" })
      ≡ some http_timeout)
    × (step_category (record result { assertion_results = some (assertion "$.status") })
        ≡ some unexpected_status)
    × (step_category (record result { assertion_results = some (assertion "$.id") })
        ≡ some assertion_mismatch)
    × (step_category (record result { step_type = "setVariable" })
        ≡ some variable_extraction_failed)
unfolding step_category
steps = (refl, refl, refl, refl)

environments :
    (run_category (infra environment_validation "Service api cannot use privileged mode")
      ≡ some compose_validation_failed)
    × (run_category (infra image_pull "manifest unknown") ≡ some image_pull_failed)
    × (run_category (infra container_start "docker compose up failed with code 1")
        ≡ some container_exited)
    × (run_category
          (infra container_start "Bind for 0.0.0.0:5432 failed: port is already allocated")
        ≡ some port_conflict)
    × (run_category (infra network "getaddrinfo ENOTFOUND api.internal") ≡ some dns_network_failure)
    × (run_category (infra internal "Unexpected worker crash") ≡ some internal_runner_error)
    × (run_category (with_row (record row { status = passed })) ≡ none)
unfolding run_category
environments = (refl, refl, refl, refl, refl, refl, refl)

texts :
    (sanitize_detail "authorization=\"super-secret\" and password=abc123 & x"
      ≡ "authorization=*** and password=*** & x")
    × (json_text (object (field "a" (json "x\"y") (field "b" (array (item null end)) done)))
        ≡ "{\"a\":\"x\\\"y\",\"b\":[null]}")
unfolding sanitize_detail json_text
texts = (refl, refl)

late_facts :
    (is_cleanup_only_failure (build_context (with_row late) [] []) ≡ false)
    × (phase_timestamp late.phase_timestamps waiting_for_healthcheck ≡ some (at 1783332030000))
    × (is_terminal_failure_status timed_out ≡ true)
unfolding is_cleanup_only_failure build_context phase_timestamp is_terminal_failure_status
late_facts = (refl, refl, refl)

port_facts :
    (occurs image_pull_pattern
        (build_context (infra container_start "Bind for 0.0.0.0:5432 failed") [] []).message
      ≡ false)
    × (expected_category container_start
          (build_context (infra container_start "Bind for 0.0.0.0:5432 failed") [] [])
        ≡ some port_conflict)
unfolding occurs image_pull_pattern port_conflict_pattern build_context expected_category
port_facts = (refl, refl)

diagnose_lem_example :
    (is_terminal_failure_status timed_out ≡ true
      → (d : RunDiagnosis) × (diagnose (with_row late) [] [] ≡ ok (some d)) × IsActionable d)
    × (is_terminal_failure_status timed_out ≡ false → diagnose (with_row late) [] [] ≡ ok none)
diagnose_lem_example = diagnose_lem (with_row late) [] [] (AreReadable-IsDated late (tt, (tt, tt)))

diagnose_infra_lem_example :
    Diagnoses port_conflict (diagnose (infra container_start "Bind for 0.0.0.0:5432 failed") [] [])
diagnose_infra_lem_example =
    diagnose_infra_lem (infra container_start "Bind for 0.0.0.0:5432 failed") [] [] container_start
      port_conflict
      (AreReadable-IsDated (infra container_start "Bind for 0.0.0.0:5432 failed").row tt) refl refl
      port_facts.0 port_facts.1

diagnose_timed_out_example : Diagnoses healthcheck_timeout (diagnose (with_row late) [] [])
diagnose_timed_out_example =
    diagnose_timed_out (with_row late) [] [] (at 1783332030000)
      (AreReadable-IsDated late (tt, (tt, tt))) refl late_facts.1 late_facts.0

abbrev chunk : LogChunkPreview
chunk = record { sequence = 1; source = from_error; preview = "password=hunter2 refused" }

build_phase_timeline_lem_example :
    (es : List TimelineEntry) × (build_phase_timeline (with_row late) ≡ ok es)
    × (ids es ≡ map (λ d. d.id) phase_definitions)
    × (marked es ≤ 1)
    × All (IsHonest (with_row late)) es
build_phase_timeline_lem_example =
    build_phase_timeline_lem (with_row late) (AreReadable-IsDated late (tt, (tt, tt)))

build_diagnosis_lem_example :
    (d : TestRunDiagnosis) × (build_diagnosis (with_row late) (result ∷ []) [] ≡ ok d)
    × (is_some d.primary_failure ≡ is_some d.structured_diagnosis)
    × (is_some d.primary_failure ≡ (is_terminal timed_out && not (same_status timed_out passed)))
build_diagnosis_lem_example =
    build_diagnosis_lem (with_row late) (result ∷ []) [] (AreReadable-IsDated late (tt, (tt, tt)))

-- The phase of the tests, which a run enters that waited for its health check.
transition_data-IsDated_example :
    AreReadable
      (transition_data late collecting_artifacts 1783332070000 (λ r. r) late).phase_timestamps
    × ((d : Option RunDiagnosis) × (diagnose
            (record {
              row = transition_data late collecting_artifacts 1783332070000 (λ r. r) late;
              execution_metadata = none;
            })
            (result ∷ [])
            []
          ≡ ok d))
transition_data-IsDated_example =
    transition_data-IsDated late late collecting_artifacts 1783332070000 (λ r. r) none (result ∷ [])
      [] (tt, (tt, tt)) (tt, (tt, tt))
