-- ===== src/Runs/Updates.antt =====
-- The `data` of each update of TestRunStateService (test-runs/test-run-state.service.ts), as a
-- function on the row: a field that is `undefined` keeps the column.
use Prim.Native.String
use testing_environment.Common.{ℕ, ◌+◌, String, Option, none, some, if◌then◌else◌, str_eq}
use testing_environment.Runs.Run.{FailureCategory, test_assertion, Stats}
use testing_environment.Runs.Status.{TestRunStatus, queued, claimed, is_phase}
use testing_environment.Runs.Run.{FailureCategory, test_assertion, TestRun, Stats, LeaseOptions}
use testing_environment.Runs.Rows.{or_keep, next_phase_timestamps}

unfoldable pub cleared_lease_data : TestRun → TestRun
cleared_lease_data r = record r {
  runner_id = none;
  lease_acquired_at = none;
  lease_expires_at = none;
  heartbeat_at = none;
}

-- The `updateData` of `transition`, from the row that was read.
unfoldable pub transition_data :
    TestRun → TestRunStatus → ℕ → (TestRun → TestRun) → TestRun → TestRun
transition_data run target at changes r = record (changes r) {
  status = target;
  current_phase = if is_phase target then some target else none;
  phase_timestamps = or_keep (next_phase_timestamps run target at) r.phase_timestamps;
}

unfoldable pub claim_data : TestRun → LeaseOptions → ℕ → TestRun → TestRun
claim_data run lease at r = record r {
  status = claimed;
  current_phase = none;
  phase_timestamps = or_keep (next_phase_timestamps run claimed at) r.phase_timestamps;
  runner_id = some lease.runner_id;
  lease_acquired_at = some at;
  lease_expires_at = some (at + lease.lease_duration_ms);
  heartbeat_at = some at;
  attempt = r.attempt + 1;
  claimed_at = some at;
  started_at = some at;
  status_reason = none;
  failure_category = none;
}

-- `claim` without a lease
unfoldable pub claimed_data : ℕ → TestRun → TestRun
claimed_data at r = record r {
  claimed_at = some at;
  started_at = some at;
  status_reason = none;
  failure_category = none;
}

unfoldable pub queued_data : String → ℕ → TestRun → TestRun
unfolding cleared_lease_data
queued_data job_id at r = cleared_lease_data (record r {
  queue_job_id = some job_id;
  queued_at = some at;
  enqueued_at = some at;
  status_reason = none;
  failure_category = none;
})

-- `reason ? … : …`, where the empty text counts as no reason
unfoldable pub cancel_status_reason : Option String → String
cancel_status_reason none = "Cancellation requested"
cancel_status_reason (some reason) =
    if str_eq reason ""
    then "Cancellation requested"
    else String.◌++◌ "Cancellation requested: " reason

unfoldable pub cancel_requested_data : Option String → Option String → ℕ → TestRun → TestRun
unfolding cancel_status_reason
cancel_requested_data requested_by reason at r = record r {
  cancel_requested_at = some at;
  cancellation_requested_at = some at;
  cancel_requested_by = or_keep requested_by r.cancel_requested_by;
  cancellation_reason = reason;
  status_reason = some (cancel_status_reason reason);
}

unfoldable pub cancelled_data : Option ℕ → Option String → ℕ → TestRun → TestRun
unfolding cleared_lease_data
cancelled_data duration_ms cleanup_error at r = record (cleared_lease_data r) {
  finished_at = some at;
  duration_ms = or_keep duration_ms r.duration_ms;
  failure_category = some FailureCategory.cancelled;
  status_reason = some "Test run was cancelled";
  error_message = some "Test run was cancelled";
  cleanup_error = or_keep cleanup_error r.cleanup_error;
}

unfoldable pub passed_data : Stats → ℕ → ℕ → TestRun → TestRun
unfolding cleared_lease_data
passed_data stats duration_ms at r = record (cleared_lease_data r) {
  finished_at = some at;
  duration_ms = some duration_ms;
  error_message = none;
  status_reason = none;
  failure_category = none;
  total_tests = stats.total_tests;
  passed_tests = stats.passed_tests;
  failed_tests = stats.failed_tests;
}

unfoldable pub test_failed_data : Stats → ℕ → String → ℕ → TestRun → TestRun
unfolding cleared_lease_data
test_failed_data stats duration_ms reason at r = record (cleared_lease_data r) {
  finished_at = some at;
  duration_ms = some duration_ms;
  status_reason = some reason;
  error_message = some reason;
  failure_category = some test_assertion;
  total_tests = stats.total_tests;
  passed_tests = stats.passed_tests;
  failed_tests = stats.failed_tests;
}

-- `markInfraFailed`, and `markTimedOut` with its own category
unfoldable pub failed_data : FailureCategory → String → Option ℕ → ℕ → TestRun → TestRun
unfolding cleared_lease_data
failed_data category reason duration_ms at r = record (cleared_lease_data r) {
  finished_at = some at;
  duration_ms = or_keep duration_ms r.duration_ms;
  status_reason = some reason;
  error_message = some reason;
  failure_category = some category;
}

-- `renewLease`
unfoldable pub renewed_data : ℕ → ℕ → TestRun → TestRun
renewed_data duration_ms at r = record r {
  heartbeat_at = some at;
  lease_expires_at = some (at + duration_ms);
}

-- `markQueuedIfCreated`
unfoldable pub queued_if_created_data : String → ℕ → TestRun → TestRun
unfolding queued_data
queued_if_created_data job_id at r = record (queued_data job_id at r) { status = queued }
