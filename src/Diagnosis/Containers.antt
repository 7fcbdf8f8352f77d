-- ===== src/Diagnosis/Containers.antt =====
-- The diagnoses of a container that exited and of a port in use
-- (test-runs/failure-diagnosis/failure-diagnosis.engine.ts).
use testing_environment.Common.{String, Option, none, some, [], ◌∷◌, if◌then◌else◌, str_eq}
use testing_environment.Common.Text.{◌<>◌}
use testing_environment.Common.Result.{Result, ok, ◌>>=◌}
use testing_environment.Runs.Status.{starting_environment}
use testing_environment.Diagnosis.{
  container_exited, port_conflict, high, medium, RunDiagnosis, RangeError,
}
use testing_environment.Diagnosis.Patterns.{extract_exit_code, extract_port_from_message}
use testing_environment.Diagnosis.Context.{Context, sanitize_detail}
use testing_environment.Diagnosis.Evidence.{run_field_evidence, phase_evidence, docker_log_evidence}
use testing_environment.Diagnosis.Infrastructure.{non_empty, is_given}

abbrev exit_summary : Option String → String → String
exit_summary none message = message
exit_summary (some exit) message =
    if str_eq exit "" then message else "A service container exited with code " <> exit <> "."

unfoldable pub diagnose_container_exited : Context → Result RangeError RunDiagnosis
unfolding sanitize_detail run_field_evidence docker_log_evidence phase_evidence extract_exit_code
diagnose_container_exited context =
    let message = sanitize_detail (non_empty context.message "Container exited unexpectedly") in
    let exit = extract_exit_code context.message in
    do
      related ← phase_evidence context starting_environment
      ok (record {
        category = container_exited;
        title = "Container exited before becoming healthy";
        summary = exit_summary exit message;
        primary_evidence =
            run_field_evidence "Runner error" message "errorMessage" ∷ docker_log_evidence context;
        related_evidence = related;
        suggested_actions =
            record {
              id = "inspect-container-logs";
              label = "Inspect container logs";
              description = "Review DOCKER log chunks for the service that exited.";
              priority = high;
            }
            ∷ record {
              id = "check-start-command";
              label = "Check service start command";
              description = "Verify the container entrypoint and environment variables in compose.";
              priority = medium;
            }
            ∷ [];
        confidence = if is_given exit then 95 else 75;
      })

abbrev port_summary : Option String → String
port_summary none = "A required host port is already allocated."
port_summary (some port) =
    if str_eq port ""
    then "A required host port is already allocated."
    else "Port " <> port <> " is already in use on the runner host."

abbrev port_label : Option String → String
port_label none = "Free the conflicting host port"
port_label (some port) =
    if str_eq port "" then "Free the conflicting host port" else "Free port " <> port

unfoldable pub diagnose_port_conflict : Context → Result RangeError RunDiagnosis
unfolding sanitize_detail run_field_evidence docker_log_evidence phase_evidence
    extract_port_from_message
diagnose_port_conflict context =
    let message = sanitize_detail context.message in
    let port = extract_port_from_message context.message in
    do
      related ← phase_evidence context starting_environment
      ok (record {
        category = port_conflict;
        title = "Host port conflict detected";
        summary = port_summary port;
        primary_evidence =
            run_field_evidence "Runner error" message "errorMessage" ∷ docker_log_evidence context;
        related_evidence = related;
        suggested_actions =
            record {
              id = "free-port";
              label = port_label port;
              description = "Stop the process or container currently bound to the host port.";
              priority = high;
            }
            ∷ record {
              id = "change-port-mapping";
              label = "Change host port mapping";
              description = "Update the environment config to use a different host port.";
              priority = medium;
            }
            ∷ [];
        confidence = 95;
      })
