-- ===== src/Queue/Recovery.antt =====
-- TestRunQueueRecoveryService (queue/test-run-queue-recovery.service.ts): the recovery of queued runs at the
-- start of a process, and the janitor over expired leases. `findMany` is a parameter; the log and the
-- metrics are left out.
use testing_environment.Common.{
  ℕ, String, Bool, false, not, ◌&&◌, ◌||◌, Option, none, some, List, [], ◌∷◌, ltb, if◌then◌else◌,
  is_some,
}
use testing_environment.Common.Table.{Table}
use testing_environment.Common.Act.{Act, pure, query, now, catch, ◌>>=◌, ◌>>◌}
use testing_environment.Runs.Status.{
  TestRunStatus, created, queued, cancel_requested, claimed, is_phase, same_status,
}
use testing_environment.Runs.Run.{TestRun, StateError, FailureCategory}
use testing_environment.Runs.State.Ending.{try_mark_infra_failed, try_mark_cancelled}
use testing_environment.Queue.{JobQueue, enqueue, has_job, restore_missing_queued_job}

pub record RunRef : Type 0 where
  pub id : String
  pub status : TestRunStatus

-- The `where` of `recoverQueuedRuns`.
unfoldable pub is_recoverable : TestRun → Bool
unfolding same_status
is_recoverable r =
    (same_status r.status created || same_status r.status queued)
    && not (is_some r.finished_at)
    && not (is_some r.cancel_requested_at)
    && not (is_some r.cancellation_requested_at)

abbrev expired : ℕ → Option ℕ → Bool
expired at none = false
expired at (some expires) = ltb expires at

-- The `where` of `recoverExpiredLeases`.
unfoldable pub is_orphaned : ℕ → TestRun → Bool
unfolding same_status is_phase
is_orphaned at r =
    (same_status r.status claimed || is_phase r.status || same_status r.status cancel_requested)
    && not (is_some r.finished_at)
    && expired at r.lease_expires_at

module _ (T : Table TestRun) (Q : JobQueue T)
    (find_many : (TestRun → Bool) → T.Db → List RunRef) where
  unfoldable pub recover_queued_run : RunRef → Act T.Db StateError Unit
  unfolding enqueue has_job restore_missing_queued_job same_status
  recover_queued_run run =
      if same_status run.status created then (do enqueue T Q run.id; pure tt) else (do
        found ← has_job T Q run.id
        if found then pure tt else (do restore_missing_queued_job T Q run.id; pure tt))

  unfoldable pub recover_expired_lease : RunRef → Act T.Db StateError Unit
  unfolding try_mark_infra_failed try_mark_cancelled same_status
  recover_expired_lease run =
      if same_status run.status cancel_requested
      then (do
        try_mark_cancelled T run.id none (some "Worker lease expired before cleanup confirmation")
        pure tt)
      else (do
        try_mark_infra_failed T run.id FailureCategory.internal
            "Worker execution lease expired; run was not retried automatically" none
        pure tt)

  -- `for … try { … } catch { log }`
  unfoldable pub for_each :
      (RunRef → Act T.Db StateError Unit) → List RunRef → Act T.Db StateError Unit
  for_each step [] = pure tt
  for_each step (run ∷ runs) = do catch (step run) (λ e. pure tt); for_each step runs

  unfoldable pub recover_queued_runs : Act T.Db StateError Unit
  unfolding for_each recover_queued_run is_recoverable
  recover_queued_runs = do runs ← query (find_many is_recoverable); for_each recover_queued_run runs

  unfoldable pub recover_expired_leases : Act T.Db StateError Unit
  unfolding for_each recover_expired_lease is_orphaned
  recover_expired_leases = do
    at ← now
    runs ← query (find_many (is_orphaned at))
    for_each recover_expired_lease runs
