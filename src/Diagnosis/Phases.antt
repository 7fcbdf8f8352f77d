-- ===== src/Diagnosis/Phases.antt =====
-- The phases of a run: which one it is in, and in which it failed (test-runs/test-run-diagnosis.service.ts).
use testing_environment.Common.{
  ℕ, String, Bool, not, ◌||◌, Option, none, some, List, [], ◌∷◌, includes, holds, or_try, is_some,
  if◌then◌else◌,
}
use testing_environment.Common.Time.{Moment, at}
use testing_environment.Runs.Status.{
  TestRunStatus, queued, claimed, preparing_workspace, validating_environment, pulling_images,
  starting_environment, waiting_for_healthcheck, executing_tests, collecting_artifacts, cleaning_up,
  passed, test_failed, infra_failed, timed_out, cancelled, same_status, TestRunStatus-discrete,
}
use testing_environment.Runs.Run.{
  TestRun, FailureCategory, environment_validation, image_pull, container_start, healthcheck,
  test_assertion,
}
use testing_environment.Diagnosis.Context.{phase_timestamp}

pub data PhaseId : Type 0 where
  queue workspace validation image_preparation environment_startup : PhaseId
  health_check tests artifact_collection cleanup : PhaseId

unfoldable pub PhaseId-discrete : Discrete PhaseId
PhaseId-discrete = hlevel

-- `a === b`
unfoldable pub same_phase : PhaseId → PhaseId → Bool
unfolding PhaseId-discrete
same_phase a b = holds (PhaseId-discrete a b)

pub record PhaseDefinition : Type 0 where
  pub id : PhaseId
  pub label : String
  pub backend_statuses : List TestRunStatus

-- `PHASE_DEFINITIONS`
abbrev pub phase_definitions : List PhaseDefinition
phase_definitions =
    record { id = queue; label = "Queued"; backend_statuses = queued ∷ claimed ∷ [] }
    ∷ record { id = workspace; label = "Workspace"; backend_statuses = preparing_workspace ∷ [] }
    ∷ record {
      id = validation;
      label = "Validation";
      backend_statuses = validating_environment ∷ [];
    }
    ∷ record {
      id = image_preparation;
      label = "Image preparation";
      backend_statuses = pulling_images ∷ [];
    }
    ∷ record {
      id = environment_startup;
      label = "Environment startup";
      backend_statuses = starting_environment ∷ [];
    }
    ∷ record {
      id = health_check;
      label = "Healthcheck";
      backend_statuses = waiting_for_healthcheck ∷ [];
    }
    ∷ record { id = tests; label = "Tests"; backend_statuses = executing_tests ∷ [] }
    ∷ record {
      id = artifact_collection;
      label = "Artifact collection";
      backend_statuses = collecting_artifacts ∷ [];
    }
    ∷ record { id = cleanup; label = "Cleanup"; backend_statuses = cleaning_up ∷ [] }
    ∷ []

pub data PhaseStatus : Type 0 where
  pending skipped failed active completed : PhaseStatus

pub record TimelineEntry : Type 0 where
  pub id : PhaseId
  pub label : String
  pub status : PhaseStatus
  pub started_at : Option String
  pub finished_at : Option String
  pub duration_ms : Option ℕ

-- `TERMINAL_FAILURE_STATUSES`
abbrev pub terminal_failure_statuses : List TestRunStatus
terminal_failure_statuses = test_failed ∷ infra_failed ∷ timed_out ∷ cancelled ∷ []

unfoldable pub is_failure : TestRunStatus → Bool
unfolding TestRunStatus-discrete
is_failure status = includes TestRunStatus-discrete terminal_failure_statuses status

unfoldable pub is_ended : TestRunStatus → Bool
unfolding same_status is_failure
is_ended status = same_status status passed || is_failure status

-- The date of the first of the statuses that has one.
unfoldable pub first_timestamp : TestRun → List TestRunStatus → Option Moment
unfolding phase_timestamp
first_timestamp run [] = none
first_timestamp run (status ∷ rest) =
    or_try (phase_timestamp run.phase_timestamps status) (first_timestamp run rest)

-- The last phase that has a date.
unfoldable pub last_phase : TestRun → List PhaseDefinition → Option PhaseId
unfolding first_timestamp
last_phase run [] = none
last_phase run (d ∷ rest) =
    or_try (last_phase run rest)
      (if is_some (first_timestamp run d.backend_statuses) then some d.id else none)

abbrev pub phase_of_cause : FailureCategory → Option PhaseId
phase_of_cause environment_validation = some validation
phase_of_cause image_pull = some image_preparation
phase_of_cause container_start = some environment_startup
phase_of_cause healthcheck = some health_check
phase_of_cause test_assertion = some tests
phase_of_cause _ = none

abbrev phase_of_recorded : Option FailureCategory → Option PhaseId
phase_of_recorded none = none
phase_of_recorded (some cause) = phase_of_cause cause

unfoldable pub failed_phase_id : TestRun → Option PhaseId
unfolding is_failure last_phase
failed_phase_id run =
    if not (is_failure run.status)
    then none
    else or_try (phase_of_recorded run.failure_category) (last_phase run phase_definitions)

abbrev phase_of_status : TestRunStatus → Option PhaseId
phase_of_status queued = some queue
phase_of_status claimed = some queue
phase_of_status preparing_workspace = some workspace
phase_of_status validating_environment = some validation
phase_of_status pulling_images = some image_preparation
phase_of_status starting_environment = some environment_startup
phase_of_status waiting_for_healthcheck = some health_check
phase_of_status executing_tests = some tests
phase_of_status collecting_artifacts = some artifact_collection
phase_of_status cleaning_up = some cleanup
phase_of_status _ = none

unfoldable pub active_phase_id : TestRun → Option PhaseId
unfolding is_ended
active_phase_id run = if is_ended run.status then none else phase_of_status run.status

abbrev pub moment : Option ℕ → Option Moment
moment none = none
moment (some ms) = some (at ms)
