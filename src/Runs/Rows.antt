-- ===== src/Runs/Rows.antt =====
-- The checks of TestRunStateService on a row, the `where` of its updates and the timestamps of the
-- phases (test-runs/test-run-state.service.ts).
use testing_environment.Common.{
  ℕ, String, Bool, true, false, ◌&&◌, ◌||◌, not, Option, none, some, List, [], ◌∷◌, ltb,
  if◌then◌else◌, is_some, or_else, str_eq,
}
use testing_environment.Common.Result.{Result, ok, err}
use testing_environment.Runs.Status.{
  TestRunStatus, created, queued, claimed, preparing_workspace, validating_environment,
  pulling_images, starting_environment, waiting_for_healthcheck, executing_tests,
  collecting_artifacts, cleaning_up, passed, test_failed, infra_failed, timed_out, cancel_requested,
  cancelled, is_terminal, is_phase, is_active, allows, same_status,
}
use testing_environment.Runs.Run.{
  Stamp, iso, not_text, TestRun, StateError, from_terminal, invalid_transition,
}

-- A column that the update gives, or leaves.
abbrev pub or_keep : {A : Type 0} → Option A → Option A → Option A
or_keep none old = old
or_keep (some a) _ = some a

-- The values of the enum, which are the keys of `phaseTimestamps`.
unfoldable pub status_name : TestRunStatus → String
status_name created = "CREATED"
status_name queued = "QUEUED"
status_name claimed = "CLAIMED"
status_name preparing_workspace = "PREPARING_WORKSPACE"
status_name validating_environment = "VALIDATING_ENVIRONMENT"
status_name pulling_images = "PULLING_IMAGES"
status_name starting_environment = "STARTING_ENVIRONMENT"
status_name waiting_for_healthcheck = "WAITING_FOR_HEALTHCHECK"
status_name executing_tests = "EXECUTING_TESTS"
status_name collecting_artifacts = "COLLECTING_ARTIFACTS"
status_name cleaning_up = "CLEANING_UP"
status_name passed = "PASSED"
status_name test_failed = "TEST_FAILED"
status_name infra_failed = "INFRA_FAILED"
status_name timed_out = "TIMED_OUT"
status_name cancel_requested = "CANCEL_REQUESTED"
status_name cancelled = "CANCELLED"

-- The entries of an object whose values are texts.
unfoldable pub text_entries : List (String × Stamp) → List (String × Stamp)
text_entries [] = []
text_entries ((k, not_text) ∷ es) = text_entries es
text_entries ((k, v) ∷ es) = (k, v) ∷ text_entries es

unfoldable pub lookup_key : String → List (String × Stamp) → Option Stamp
lookup_key key [] = none
lookup_key key ((k, v) ∷ es) = if str_eq k key then some v else lookup_key key es

-- `{ ...entries, [key]: value }`
unfoldable pub set_key : String → Stamp → List (String × Stamp) → List (String × Stamp)
set_key key value [] = (key, value) ∷ []
set_key key value ((k, v) ∷ es) =
    if str_eq k key then (k, value) ∷ es else (k, v) ∷ set_key key value es

unfoldable pub existing_stamps : Option (List (String × Stamp)) → List (String × Stamp)
unfolding text_entries
existing_stamps none = []
existing_stamps (some es) = text_entries es

-- `nextPhaseTimestamps`; `none` is `undefined`.
unfoldable pub next_phase_timestamps : TestRun → TestRunStatus → ℕ → Option (List (String × Stamp))
unfolding existing_stamps lookup_key set_key status_name
next_phase_timestamps run target at =
    if is_phase target
    then (let existing = existing_stamps run.phase_timestamps in
        let key = status_name target in
        some (set_key key (or_else (lookup_key key existing) (iso at)) existing))
    else none

unfoldable pub assert_transition_allowed : TestRun → TestRunStatus → Result StateError Unit
assert_transition_allowed run target =
    if is_terminal run.status
    then err (from_terminal run.status)
    else if same_status run.status target
    then ok tt
    else if allows run.status target
    then ok tt
    else err (invalid_transition run.status target)

abbrev pub found_or : {A : Type 0} → StateError → Option A → Result StateError A
found_or e none = err e
found_or e (some a) = ok a

-- The columns that `getQueueState` selects.
pub record QueueState : Type 0 where
  pub status : TestRunStatus
  pub queue_job_id : Option String
  pub cancel_requested_at : Option ℕ
  pub cancellation_requested_at : Option ℕ
  pub finished_at : Option ℕ

abbrev pub queue_state : TestRun → QueueState
queue_state r = record {
  status = r.status;
  queue_job_id = r.queue_job_id;
  cancel_requested_at = r.cancel_requested_at;
  cancellation_requested_at = r.cancellation_requested_at;
  finished_at = r.finished_at;
}

-- `{ leaseExpiresAt: null }` or `{ leaseExpiresAt: { lt: now } }`
abbrev pub lease_is_free : ℕ → Option ℕ → Bool
lease_is_free at none = true
lease_is_free at (some expires) = ltb expires at

-- The `where` of `markQueuedIfCreated`.
unfoldable pub is_waiting : TestRun → Bool
is_waiting r =
    same_status r.status created
    && not (is_some r.finished_at)
    && not (is_some r.cancel_requested_at)
    && not (is_some r.cancellation_requested_at)

abbrev pub is_runner : String → Option String → Bool
is_runner runner_id none = false
is_runner runner_id (some owner) = str_eq owner runner_id

-- The `where` of `renewLease`.
unfoldable pub is_leased_by : String → TestRun → Bool
is_leased_by runner_id r =
    is_runner runner_id r.runner_id && not (is_some r.finished_at) && is_active r.status

unfoldable pub wants_cancellation : TestRun → Bool
wants_cancellation r =
    same_status r.status cancel_requested
    || same_status r.status cancelled
    || is_some r.cancel_requested_at
    || is_some r.cancellation_requested_at
