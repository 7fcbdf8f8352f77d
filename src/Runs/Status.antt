-- ===== src/Runs/Status.antt =====
-- test-runs/test-run-status.constants.ts, and the transition table of test-run-state.service.ts.
pub mod Graph
use testing_environment.Common.{
  ◌≡◌, Bool, true, false, ◌||◌, List, [], ◌∷◌, ◌++◌, includes, holds, if◌then◌else◌,
}

pub data TestRunStatus : Type 0 where
  created queued claimed preparing_workspace validating_environment pulling_images : TestRunStatus
  starting_environment waiting_for_healthcheck executing_tests : TestRunStatus
  collecting_artifacts cleaning_up passed test_failed infra_failed timed_out : TestRunStatus
  cancel_requested cancelled : TestRunStatus

unfoldable pub TestRunStatus-discrete : Discrete TestRunStatus
TestRunStatus-discrete = hlevel

abbrev pub phase_statuses : List TestRunStatus
phase_statuses =
    preparing_workspace ∷ validating_environment ∷ pulling_images ∷ starting_environment
    ∷ waiting_for_healthcheck ∷ executing_tests ∷ collecting_artifacts ∷ cleaning_up ∷ []

abbrev pub terminal_statuses : List TestRunStatus
terminal_statuses = passed ∷ test_failed ∷ infra_failed ∷ timed_out ∷ cancelled ∷ []

abbrev pub active_statuses : List TestRunStatus
active_statuses = (created ∷ queued ∷ claimed ∷ []) ++ phase_statuses ++ cancel_requested ∷ []

abbrev pub cancellable_statuses : List TestRunStatus
cancellable_statuses = (queued ∷ claimed ∷ []) ++ phase_statuses

unfoldable pub is_terminal : TestRunStatus → Bool
unfolding TestRunStatus-discrete
is_terminal status = includes TestRunStatus-discrete terminal_statuses status

unfoldable pub is_phase : TestRunStatus → Bool
unfolding TestRunStatus-discrete
is_phase status = includes TestRunStatus-discrete phase_statuses status

unfoldable pub is_active : TestRunStatus → Bool
unfolding TestRunStatus-discrete
is_active status = includes TestRunStatus-discrete active_statuses status

unfoldable pub is_cancellable : TestRunStatus → Bool
unfolding TestRunStatus-discrete
is_cancellable status = includes TestRunStatus-discrete cancellable_statuses status

-- `TEST_RUN_ALLOWED_TRANSITIONS`
unfoldable pub allowed_transitions : TestRunStatus → List TestRunStatus
allowed_transitions created = queued ∷ infra_failed ∷ []
allowed_transitions queued = claimed ∷ cancel_requested ∷ infra_failed ∷ []
allowed_transitions claimed = preparing_workspace ∷ cancel_requested ∷ infra_failed ∷ []
allowed_transitions preparing_workspace =
    validating_environment ∷ cancel_requested ∷ infra_failed ∷ []
allowed_transitions validating_environment = pulling_images ∷ cancel_requested ∷ infra_failed ∷ []
allowed_transitions pulling_images = starting_environment ∷ cancel_requested ∷ infra_failed ∷ []
allowed_transitions starting_environment =
    waiting_for_healthcheck ∷ cancel_requested ∷ infra_failed ∷ []
allowed_transitions waiting_for_healthcheck =
    executing_tests ∷ cancel_requested ∷ infra_failed ∷ timed_out ∷ []
allowed_transitions executing_tests =
    collecting_artifacts ∷ cancel_requested ∷ test_failed ∷ timed_out ∷ infra_failed ∷ []
allowed_transitions collecting_artifacts = cleaning_up ∷ cancel_requested ∷ infra_failed ∷ []
allowed_transitions cleaning_up = passed ∷ test_failed ∷ infra_failed ∷ cancelled ∷ []
allowed_transitions cancel_requested = cancelled ∷ []
allowed_transitions passed = []
allowed_transitions test_failed = []
allowed_transitions infra_failed = []
allowed_transitions timed_out = []
allowed_transitions cancelled = []

unfoldable pub allows : TestRunStatus → TestRunStatus → Bool
unfolding TestRunStatus-discrete allowed_transitions
allows from to = includes TestRunStatus-discrete (allowed_transitions from) to

-- `from === to`
unfoldable pub same_status : TestRunStatus → TestRunStatus → Bool
unfolding TestRunStatus-discrete
same_status from to = holds (TestRunStatus-discrete from to)

-- `canTransition`
unfoldable pub can_transition : TestRunStatus → TestRunStatus → Bool
can_transition from to = if is_terminal from then false else same_status from to || allows from to
