-- ===== src/Queue.antt =====
-- The queue of test runs: TestRunQueueService (queue/test-run-queue.service.ts) and the cancellation of a run,
-- `cancel` of test-runs/test-runs.service.ts. The job queue behind BullMQ is an interface on the same
-- store as the table of runs.
pub mod Safe
pub mod Progress
pub mod Cancel
pub mod Recovery
pub mod Janitor
mod Tests
use Prim.Native.String.{◌++◌ as text_append}
use testing_environment.Common.{
  ℕ, String, ◌≡◌, Bool, true, false, not, ◌||◌, Option, none, some, if◌then◌else◌, is_some, or_else,
  str_eq,
}
use testing_environment.Common.Table.{Table}
use testing_environment.Common.Act.{Act, pure, query, command, ◌>>=◌, ◌>>◌}
use testing_environment.Runs.Status.{
  TestRunStatus, created, queued, cancel_requested, is_terminal, is_cancellable, same_status,
}
use testing_environment.Runs.Run.{TestRun, StateError}
use testing_environment.Runs.State.{read_run, get_queue_state, mark_queued_if_created}
use testing_environment.Runs.State.Ending.{request_cancel, mark_cancelled}

pub data JobState : Type 0 where
  waiting delayed prioritized active other : JobState

-- What the services rely on of the job queue: `add` with the id of a job that exists does nothing, and the jobs
-- and the runs do not touch each other.
pub record JobQueue (T : Table TestRun) : Type 0 where
  pub job_state : T.Db → String → Option JobState
  pub add : T.Db → String → T.Db
  pub remove : T.Db → String → T.Db
  pub state-add :
      (db : T.Db) (id other : String)
      → job_state (add db id) other ≡ (
          if str_eq id other
          then some (or_else (job_state db other) waiting)
          else job_state db other)
  pub state-remove :
      (db : T.Db) (id other : String)
      → job_state (remove db id) other ≡ (if str_eq id other then none else job_state db other)
  pub state-update :
      (db : T.Db) (key id : String) (cond : TestRun → Bool) (patch : TestRun → TestRun)
      → job_state (T.update db key cond patch) id ≡ job_state db id
  pub find-add : (db : T.Db) (id key : String) → T.find (add db id) key ≡ T.find db key
  pub find-remove : (db : T.Db) (id key : String) → T.find (remove db id) key ≡ T.find db key

-- What `cancelQueuedRun` answers.
pub data Cancelled : Type 0 where
  removed active missing : Cancelled

abbrev pub get_job_id : String → String
get_job_id run_id = text_append "test-run:" run_id

-- `state === 'waiting' || state === 'delayed' || state === 'prioritized'`
abbrev pub is_pending : JobState → Bool
is_pending JobState.waiting = true
is_pending JobState.delayed = true
is_pending JobState.prioritized = true
is_pending JobState.active = false
is_pending JobState.other = false

module _ (T : Table TestRun) (Q : JobQueue T) where
  unfoldable pub add_job : String → Act T.Db StateError Unit
  add_job job_id = command (λ db. tt) (λ db. Q.add db job_id)

  unfoldable pub enqueue : String → Act T.Db StateError String
  unfolding add_job get_queue_state mark_queued_if_created same_status
  enqueue run_id = do
    run ← get_queue_state T run_id
    if same_status run.status created
        then (do
          add_job (get_job_id run_id)
          mark_queued_if_created T run_id (get_job_id run_id)
          pure (get_job_id run_id))
        else pure (or_else run.queue_job_id (get_job_id run_id))

  unfoldable pub has_job : String → Act T.Db StateError Bool
  has_job run_id = query (λ db. is_some (Q.job_state db (get_job_id run_id)))

  unfoldable pub restore_missing_queued_job : String → Act T.Db StateError String
  unfolding add_job get_queue_state same_status
  restore_missing_queued_job run_id = do
    run ← get_queue_state T run_id
    if not (same_status run.status queued) || is_some run.finished_at
        then pure (or_else run.queue_job_id (get_job_id run_id))
        else if is_some run.cancel_requested_at || is_some run.cancellation_requested_at
        then pure (or_else run.queue_job_id (get_job_id run_id))
        else (do add_job (get_job_id run_id); pure (or_else run.queue_job_id (get_job_id run_id)))

  -- The job was found; its state is asked for, and it is removed if it has not been taken.
  unfoldable pub cancel_job : String → Act T.Db StateError Cancelled
  cancel_job job_id = do
    state ← query (λ db. Q.job_state db job_id)
    if is_pending (or_else state JobState.other)
        then (do command (λ db. tt) (λ db. Q.remove db job_id); pure removed)
        else pure Cancelled.active

  unfoldable pub cancel_queued_run : String → Act T.Db StateError Cancelled
  unfolding cancel_job
  cancel_queued_run run_id = do
    job ← query (λ db. Q.job_state db (get_job_id run_id))
    if is_some job then cancel_job (get_job_id run_id) else pure missing

  abbrev pub is_taken : Cancelled → Bool
  is_taken removed = false
  is_taken missing = false
  is_taken Cancelled.active = true

  -- A run that was queued is cancelled at once, unless a worker has taken its job.
  unfoldable pub finish_cancel : String → Act T.Db StateError TestRun
  unfolding cancel_queued_run mark_cancelled read_run
  finish_cancel run_id = do
    state ← cancel_queued_run run_id
    if is_taken state
        then read_run T run_id
        else (do mark_cancelled T run_id none none; read_run T run_id)

  -- `cancel`, for a run of the project.
  unfoldable pub cancel : String → Option String → Option String → Act T.Db StateError TestRun
  unfolding read_run request_cancel finish_cancel is_terminal is_cancellable same_status
  cancel run_id by reason = do
    run ← read_run T run_id
    if is_terminal run.status
          || same_status run.status cancel_requested
          || not (is_cancellable run.status)
        then pure run
        else (do
          request_cancel T run_id by reason
          if same_status run.status queued then finish_cancel run_id else read_run T run_id)
