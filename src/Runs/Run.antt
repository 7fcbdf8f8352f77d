-- ===== src/Runs/Run.antt =====
-- The `TestRun` row as the state service reads and writes it (prisma/schema.prisma lists the
-- columns), and the errors that the service throws. A date is its number of milliseconds.
use testing_environment.Common.{ℕ, String, Bool, true, false, Option, List}
use testing_environment.Runs.Status.{TestRunStatus}

pub data FailureCategory : Type 0 where
  test_assertion environment_validation image_pull container_start healthcheck : FailureCategory
  network timeout cancelled internal : FailureCategory

-- A value in the JSON of `phaseTimestamps`: the text of a date, another text, or no text.
pub data Stamp : Type 0 where
  iso : ℕ → Stamp
  text : String → Stamp
  not_text : Stamp

pub record TestRun : Type 0 where
  pub status : TestRunStatus
  pub status_reason : Option String
  pub failure_category : Option FailureCategory
  pub current_phase : Option TestRunStatus
  -- `none` for null, an array or a scalar
  pub phase_timestamps : Option (List (String × Stamp))
  pub queue_job_id : Option String
  pub queued_at : Option ℕ
  pub enqueued_at : Option ℕ
  pub claimed_at : Option ℕ
  pub cancellation_requested_at : Option ℕ
  pub cancel_requested_at : Option ℕ
  pub cancel_requested_by : Option String
  pub cancellation_reason : Option String
  pub runner_id : Option String
  pub lease_acquired_at : Option ℕ
  pub lease_expires_at : Option ℕ
  pub heartbeat_at : Option ℕ
  pub attempt : ℕ
  pub cleanup_error : Option String
  pub started_at : Option ℕ
  pub finished_at : Option ℕ
  pub total_tests : ℕ
  pub passed_tests : ℕ
  pub failed_tests : ℕ
  pub duration_ms : Option ℕ
  pub error_message : Option String

pub record Stats : Type 0 where
  pub total_tests : ℕ
  pub passed_tests : ℕ
  pub failed_tests : ℕ

pub record LeaseOptions : Type 0 where
  pub runner_id : String
  pub lease_duration_ms : ℕ

-- `run_not_found` is a `NotFoundException`, `record_not_found` Prisma's own error and `queue_failed`
-- the queue's; the others are `ConflictException`s, one for each message.
pub data StateError : Type 0 where
  run_not_found : StateError
  from_terminal : TestRunStatus → StateError
  invalid_transition : TestRunStatus → TestRunStatus → StateError
  active_lease : StateError
  changed_concurrently : StateError
  not_a_phase : TestRunStatus → StateError
  record_not_found : StateError
  -- the job queue refused a job, with this message
  queue_failed : String → StateError

abbrev pub is_conflict : StateError → Bool
is_conflict run_not_found = false
is_conflict record_not_found = false
is_conflict (queue_failed message) = false
is_conflict _ = true
