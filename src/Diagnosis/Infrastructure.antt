-- ===== src/Diagnosis/Infrastructure.antt =====
-- The diagnoses of a run that was cancelled, or failed for its cleanup, its Compose file or its images
-- (test-runs/failure-diagnosis/failure-diagnosis.engine.ts).
use testing_environment.Common.{
  String, Bool, true, false, not, Option, none, some, List, [], ◌∷◌, or_else, or_try, if◌then◌else◌,
  str_eq,
}
use testing_environment.Common.Result.{Result, ok, ◌>>=◌}
use testing_environment.Runs.Status.{validating_environment}
use testing_environment.Runs.Run.{FailureCategory, image_pull, network}
use testing_environment.Diagnosis.{
  EnvironmentResult, compose_validation_failed, image_pull_failed, cancelled_run, cleanup_failed,
  DiagnosisEvidence, environment, to_phase, SuggestedAction, high, medium, RunDiagnosis, RangeError,
}
use testing_environment.Diagnosis.Context.{Context, sanitize_detail}
use testing_environment.Diagnosis.Evidence.{
  run_field_evidence, phase_evidence, docker_log_evidence, image_reference_evidence,
}

-- `message || other`
abbrev pub non_empty : String → String → String
non_empty message other = if str_eq message "" then other else message

-- `Boolean(text)` of a nullable text
abbrev pub is_given : Option String → Bool
is_given none = false
is_given (some s) = not (str_eq s "")

-- Is the recorded category this one? The two that a confidence depends on.
abbrev pub is_image_pull : Option FailureCategory → Bool
is_image_pull (some image_pull) = true
is_image_pull _ = false

abbrev pub is_network : Option FailureCategory → Bool
is_network (some network) = true
is_network _ = false

unfoldable cleanup_evidence : Option String → List DiagnosisEvidence
cleanup_evidence none = []
cleanup_evidence (some error) =
    if str_eq error "" then [] else run_field_evidence "Cleanup error" error "cleanupError" ∷ []

unfoldable pub diagnose_cancelled : Context → RunDiagnosis
unfolding sanitize_detail run_field_evidence cleanup_evidence
diagnose_cancelled context =
    let run = context.run.row in
    let reason =
      sanitize_detail
        (or_else (or_try run.cancellation_reason run.status_reason) "Run was cancelled") in
    let manual : List SuggestedAction =
      record {
        id = "manual-cleanup";
        label = "Run manual cleanup";
        description =
            "Docker compose down failed during cancellation. Stop leftover containers on the runner host.";
        priority = high;
      }
      ∷ [] in
    record {
      category = cancelled_run;
      title = "Test run was cancelled";
      summary = non_empty reason "The run was cancelled before completion.";
      primary_evidence =
          run_field_evidence "Cancellation reason" (non_empty reason "No reason provided")
            "cancellationReason"
          ∷ [];
      related_evidence = cleanup_evidence run.cleanup_error;
      suggested_actions =
          record {
            id = "review-cancel-reason";
            label = "Review cancellation reason";
            description =
                "Check who requested cancellation and whether the environment was left running.";
            priority = medium;
          }
          ∷ (if is_given run.cleanup_error then manual else []);
      confidence = 95;
    }

unfoldable pub diagnose_cleanup_failed : Context → RunDiagnosis
unfolding sanitize_detail run_field_evidence docker_log_evidence
diagnose_cleanup_failed context =
    let error = sanitize_detail (or_else context.run.row.cleanup_error "Cleanup failed") in
    record {
      category = cleanup_failed;
      title = "Environment cleanup failed";
      summary = error;
      primary_evidence = run_field_evidence "Cleanup error" error "cleanupError" ∷ [];
      related_evidence = docker_log_evidence context;
      suggested_actions =
          record {
            id = "manual-compose-down";
            label = "Run docker compose down manually";
            description = "On the runner host, stop and remove containers for this test workspace.";
            priority = high;
          }
          ∷ record {
            id = "check-runner-logs";
            label = "Inspect runner Docker logs";
            description = "Review DOCKER log chunks for the exact compose down failure.";
            priority = medium;
          }
          ∷ [];
      confidence = 95;
    }

abbrev environment_message : Option EnvironmentResult → Option String
environment_message none = none
environment_message (some e) = e.message

unfoldable pub diagnose_compose_validation : Context → Result RangeError RunDiagnosis
unfolding sanitize_detail phase_evidence
diagnose_compose_validation context =
    let run = context.run.row in
    let message = sanitize_detail (
      or_else
        (or_try (environment_message context.metadata.environment_result)
          (or_try run.error_message run.status_reason))
        "Compose validation failed") in
    do
      related ← phase_evidence context validating_environment
      ok (record {
        category = compose_validation_failed;
        title = "Docker Compose validation failed";
        summary = message;
        primary_evidence =
            record {
              type = environment;
              label = "Environment validation";
              detail = message;
              ref = to_phase "validation";
            }
            ∷ [];
        related_evidence = related;
        suggested_actions =
            record {
              id = "run-preflight";
              label = "Run environment preflight";
              description =
                  "Open Environment Config and run preflight to see security and compose checks.";
              priority = high;
            }
            ∷ record {
              id = "fix-compose-security";
              label = "Fix compose security violations";
              description = "Remove privileged mode, host network, or forbidden volume mounts.";
              priority = high;
            }
            ∷ [];
        confidence = 95;
      })

unfoldable pub diagnose_image_pull : Context → RunDiagnosis
unfolding sanitize_detail run_field_evidence docker_log_evidence image_reference_evidence
diagnose_image_pull context =
    let message = sanitize_detail (non_empty context.message "Docker image pull failed") in
    record {
      category = image_pull_failed;
      title = "Docker image pull failed";
      summary = message;
      primary_evidence =
          run_field_evidence "Runner error" message "errorMessage" ∷ docker_log_evidence context;
      related_evidence = image_reference_evidence context;
      suggested_actions =
          record {
            id = "verify-image-name";
            label = "Verify image name and tag";
            description =
                "Check image references in the environment config match a reachable registry.";
            priority = high;
          }
          ∷ record {
            id = "check-registry-auth";
            label = "Check registry authentication";
            description = "Ensure the runner can authenticate to private image registries.";
            priority = medium;
          }
          ∷ [];
      confidence = if is_image_pull context.run.row.failure_category then 95 else 75;
    }
