-- ===== src/Runs/State/Ending.antt =====
-- TestRunStateService (test-runs/test-run-state.service.ts), the operations that cancel and end a
-- run, renew its lease and ask for its cancellation.
use testing_environment.Common.{ℕ, String, Bool, false, Option, none, some, ltb, if◌then◌else◌}
use testing_environment.Common.Table.{Table}
use testing_environment.Common.Act.{Act, pure, raise, query, command, now, ◌>>=◌, catch}
use testing_environment.Runs.Status.{
  passed, test_failed, infra_failed, timed_out, cancel_requested, cancelled, is_terminal,
}
use testing_environment.Runs.Run.{FailureCategory, timeout, TestRun, Stats, StateError, is_conflict}
use testing_environment.Runs.Rows.{is_leased_by, wants_cancellation}
use testing_environment.Runs.Updates.{
  cancel_requested_data, cancelled_data, passed_data, test_failed_data, failed_data, renewed_data,
}
use testing_environment.Runs.State.{read_run, transition}

module _ (T : Table TestRun) where
  unfoldable pub request_cancel :
      String → Option String → Option String → Act T.Db StateError TestRun
  unfolding transition
  request_cancel id requested_by reason = do
    at ← now
    transition T id cancel_requested (cancel_requested_data requested_by reason at)

  unfoldable pub mark_cancelled : String → Option ℕ → Option String → Act T.Db StateError TestRun
  unfolding transition
  mark_cancelled id duration_ms cleanup_error = do
    at ← now
    transition T id cancelled (cancelled_data duration_ms cleanup_error at)

  unfoldable pub mark_passed : String → Stats → ℕ → Act T.Db StateError TestRun
  unfolding transition
  mark_passed id stats duration_ms = do
    at ← now
    transition T id passed (passed_data stats duration_ms at)

  unfoldable pub mark_test_failed : String → Stats → ℕ → String → Act T.Db StateError TestRun
  unfolding transition
  mark_test_failed id stats duration_ms reason = do
    at ← now
    transition T id test_failed (test_failed_data stats duration_ms reason at)

  unfoldable pub mark_infra_failed :
      String → FailureCategory → String → Option ℕ → Act T.Db StateError TestRun
  unfolding transition
  mark_infra_failed id category reason duration_ms = do
    at ← now
    transition T id infra_failed (failed_data category reason duration_ms at)

  unfoldable pub mark_timed_out : String → String → Option ℕ → Act T.Db StateError TestRun
  unfolding transition
  mark_timed_out id reason duration_ms = do
    at ← now
    transition T id timed_out (failed_data timeout reason duration_ms at)

  unfoldable pub is_terminal_run : String → Act T.Db StateError Bool
  unfolding read_run
  is_terminal_run id = do run ← read_run T id; pure (is_terminal run.status)

  -- `error instanceof ConflictException && (await this.isTerminalRun(testRunId))`
  unfoldable pub null_if_ended : String → StateError → Act T.Db StateError (Option TestRun)
  unfolding is_terminal_run
  null_if_ended id e =
      if is_conflict e
      then (do ended ← is_terminal_run id; if ended then pure none else raise e)
      else raise e

  -- The shape that `tryMarkInfraFailed` and `tryMarkCancelled` share.
  unfoldable pub try_mark :
      String → Act T.Db StateError TestRun → Act T.Db StateError (Option TestRun)
  unfolding is_terminal_run null_if_ended
  try_mark id mark = do
    ended ← is_terminal_run id
    if ended then pure none else catch (do run ← mark; pure (some run)) (null_if_ended id)

  unfoldable pub try_mark_infra_failed :
      String → FailureCategory → String → Option ℕ → Act T.Db StateError (Option TestRun)
  unfolding try_mark mark_infra_failed
  try_mark_infra_failed id category reason duration_ms =
      try_mark id (mark_infra_failed id category reason duration_ms)

  unfoldable pub try_mark_cancelled :
      String → Option ℕ → Option String → Act T.Db StateError (Option TestRun)
  unfolding try_mark mark_cancelled
  try_mark_cancelled id duration_ms cleanup_error =
      try_mark id (mark_cancelled id duration_ms cleanup_error)

  unfoldable pub renew_lease : String → String → ℕ → Act T.Db StateError Bool
  renew_lease id runner_id duration_ms = do
    at ← now
    count ←
        command (λ db. T.count db id (is_leased_by runner_id))
          (λ db. T.update db id (is_leased_by runner_id) (renewed_data duration_ms at))
    pure (ltb 0 count)

  unfoldable pub is_cancellation_requested : String → Act T.Db StateError Bool
  is_cancellation_requested id = do
    found ← query (λ db. T.find db id)
    pure (elim found [ none ↦ false | some run ↦ wants_cancellation run ])
