-- ===== src/Diagnosis/Health.antt =====
-- The diagnoses of a health check and of a network that failed, and of errors inside the runner
-- (test-runs/failure-diagnosis/failure-diagnosis.engine.ts).
use testing_environment.Common.{
  ℕ, String, Option, none, some, List, [], ◌∷◌, ◌++◌, or_else, if◌then◌else◌, str_eq, ◌==◌,
}
use testing_environment.Common.Text.{◌<>◌, show}
use testing_environment.Common.Result.{Result, ok, ◌>>=◌}
use testing_environment.Runs.Status.{waiting_for_healthcheck}
use testing_environment.Diagnosis.{
  HealthcheckResult, healthcheck_timeout, dns_network_failure, internal_runner_error,
  DiagnosisEvidence, healthcheck, run_field, to_phase, to_field, high, medium, low, RunDiagnosis,
  RangeError,
}
use testing_environment.Diagnosis.Context.{Context, sanitize_detail}
use testing_environment.Diagnosis.Evidence.{run_field_evidence, phase_evidence, docker_log_evidence}
use testing_environment.Diagnosis.Infrastructure.{non_empty, is_network}

abbrev health_message : Option HealthcheckResult → Option String
health_message none = none
health_message (some h) = h.message

abbrev health_url : Option HealthcheckResult → String
health_url none = "health endpoint"
health_url (some h) = or_else h.url "health endpoint"

abbrev expected_code : Option HealthcheckResult → ℕ
expected_code none = 200
expected_code (some h) = or_else h.expected_status 200

abbrev code_text : Option ℕ → String
code_text none = "unknown"
code_text (some n) = show n

abbrev actual_code : Option HealthcheckResult → String
actual_code none = "unknown"
actual_code (some h) = code_text h.actual_status

abbrev healthcheck_evidence : String → String → DiagnosisEvidence
healthcheck_evidence label detail = record {
  type = healthcheck;
  label = label;
  detail = detail;
  ref = to_phase "healthcheck";
}

abbrev duration_evidence : Option ℕ → List DiagnosisEvidence
duration_evidence none = []
duration_evidence (some ms) =
    if ms == 0 then [] else healthcheck_evidence "Healthcheck duration" (show ms <> " ms") ∷ []

abbrev health_duration : Option HealthcheckResult → Option ℕ
health_duration none = none
health_duration (some h) = h.duration_ms

unfoldable pub diagnose_healthcheck_timeout : Context → Result RangeError RunDiagnosis
unfolding sanitize_detail phase_evidence
diagnose_healthcheck_timeout context =
    let health = context.metadata.healthcheck_result in
    let url = health_url health in
    do
      related ← phase_evidence context waiting_for_healthcheck
      ok (record {
        category = healthcheck_timeout;
        title = "Healthcheck timed out";
        summary = sanitize_detail (or_else (health_message health) context.message);
        primary_evidence =
            healthcheck_evidence "Healthcheck" (
              url
              <> ": expected "
              <> show (expected_code health)
              <> ", last status "
              <> actual_code health)
            ∷ [];
        related_evidence = related ++ duration_evidence (health_duration health);
        suggested_actions =
            record {
              id = "increase-timeout";
              label = "Increase healthcheck timeout";
              description =
                  "Raise healthcheckTimeoutSeconds in project settings if the service starts slowly.";
              priority = high;
            }
            ∷ record {
              id = "verify-health-url";
              label = "Verify healthcheck URL";
              description = "Confirm " <> url <> " is reachable once containers are up.";
              priority = high;
            }
            ∷ [];
        confidence = 95;
      })

unfoldable pub diagnose_healthcheck_failure : Context → Result RangeError RunDiagnosis
unfolding sanitize_detail phase_evidence
diagnose_healthcheck_failure context =
    let health = context.metadata.healthcheck_result in
    do
      related ← phase_evidence context waiting_for_healthcheck
      ok (record {
        category = healthcheck_timeout;
        title = "Healthcheck failed";
        summary = sanitize_detail (or_else (health_message health) context.message);
        primary_evidence =
            healthcheck_evidence "Healthcheck response"
              ("Expected " <> show (expected_code health) <> ", got " <> actual_code health)
            ∷ [];
        related_evidence = related;
        suggested_actions =
            record {
              id = "check-service-readiness";
              label = "Check service readiness";
              description =
                  "Ensure the application responds on the healthcheck path after startup.";
              priority = high;
            }
            ∷ [];
        confidence = 95;
      })

unfoldable pub diagnose_network_failure : Context → RunDiagnosis
unfolding sanitize_detail run_field_evidence docker_log_evidence
diagnose_network_failure context =
    let message = sanitize_detail (non_empty context.message "Network connection failed") in
    record {
      category = dns_network_failure;
      title = "DNS or network failure";
      summary = message;
      primary_evidence = run_field_evidence "Runner error" message "errorMessage" ∷ [];
      related_evidence = docker_log_evidence context;
      suggested_actions =
          record {
            id = "verify-dns";
            label = "Verify DNS resolution";
            description = "Check that service hostnames resolve inside the test environment.";
            priority = high;
          }
          ∷ record {
            id = "check-network-connectivity";
            label = "Check network connectivity";
            description = "Ensure containers can reach each other and external dependencies.";
            priority = medium;
          }
          ∷ [];
      confidence = if is_network context.run.row.failure_category then 95 else 75;
    }

abbrev runner_evidence : Option String → List DiagnosisEvidence
runner_evidence none = []
runner_evidence (some runner_id) =
    let evidence : DiagnosisEvidence = record {
      type = run_field;
      label = "Runner ID";
      detail = runner_id;
      ref = to_field "runnerId";
    } in
    if str_eq runner_id "" then [] else evidence ∷ []

-- The message of the context is never missing, so its alternatives are not used.
unfoldable pub diagnose_internal : Context → Option String → RunDiagnosis
unfolding sanitize_detail run_field_evidence docker_log_evidence
diagnose_internal context summary =
    let message = sanitize_detail (or_else summary context.message) in
    record {
      category = internal_runner_error;
      title = "Internal runner error";
      summary = message;
      primary_evidence = run_field_evidence "Runner error" message "errorMessage" ∷ [];
      related_evidence = docker_log_evidence context ++ runner_evidence context.run.row.runner_id;
      suggested_actions =
          record {
            id = "check-runner-logs";
            label = "Inspect runner logs";
            description = "Review SYSTEM and ERROR log chunks around the failure time.";
            priority = high;
          }
          ∷ record {
            id = "retry-run";
            label = "Retry the run";
            description = "If transient, re-run with the same immutable revisions.";
            priority = low;
          }
          ∷ [];
      confidence = 50;
    }
