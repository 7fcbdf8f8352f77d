-- ===== src/Runner/Lifecycle.antt =====
-- The execution of a run from the claim to its end: `executeInternal` of runner/runner-orchestrator.service.ts on the
-- state service. What is outside of the table, which are the containers, the files, the health check and the suites, is a
-- record of outcomes; others write to the table, and time passes, at the queries that follow.
pub mod Safety
pub mod Alone
pub mod Stages
pub mod Verdict
pub mod Marks
pub mod Moves
pub mod Handling
pub mod Phases
pub mod Refinement
mod Tests
use testing_environment.Common.{
  ℕ, ◌-◌, String, Bool, true, false, not, Option, none, some, if◌then◌else◌, ltb,
}
use testing_environment.Common.Text.{◌<>◌, show}
use testing_environment.Common.Result.{Result, ok, err}
use testing_environment.Common.Table.{Table}
use testing_environment.Common.Act.{World, Act, pure, raise, lift, query, now, ◌>>=◌, ◌>>◌}
use testing_environment.Runs.Status.{
  TestRunStatus, queued, preparing_workspace, validating_environment, pulling_images,
  starting_environment, waiting_for_healthcheck, executing_tests, collecting_artifacts, cleaning_up,
  same_status,
}
use testing_environment.Runs.Run.{
  TestRun, Stats, LeaseOptions, FailureCategory, StateError, run_not_found, from_terminal,
  invalid_transition, active_lease, changed_concurrently, not_a_phase, record_not_found,
  queue_failed, timeout,
}
use testing_environment.Runs.Rows.{status_name}
use testing_environment.Runs.State.{claim, enter_phase}
use testing_environment.Runs.State.Ending.{
  request_cancel, mark_cancelled, mark_passed, mark_test_failed, mark_infra_failed, mark_timed_out,
  is_cancellation_requested,
}
use testing_environment.Runner.{Interruption, run_cancelled, run_error}
use testing_environment.Runner.Execution.{failure_category_for}
use testing_environment.Runner.Outcomes.{
  Outcomes, Worker, error_text, interruption_text, required, found_run, is_cancelled_error,
  status_in, when, is_timeout_category, told, attempt, silently, call,
}

module _ (T : Table TestRun) (W : Worker) (o : Outcomes) (id : String) where
  unfoldable pub asked : Act T.Db Interruption Bool
  unfolding call
  asked = call (is_cancellation_requested T id)

  unfoldable pub ensure : Result Interruption Unit → Act T.Db Interruption Unit
  unfolding asked
  ensure signal = do
    lift signal
    cancelled ← asked
    if cancelled then raise run_cancelled else pure tt

  unfoldable pub enter : TestRunStatus → Act T.Db Interruption TestRun
  unfolding call
  enter phase = call (enter_phase T id phase)

  unfoldable pub after_claim : Result StateError TestRun → Act T.Db Interruption Bool
  unfolding asked error_text
  after_claim (ok run) = pure true
  after_claim (err active_lease) = do
    cancelled ← asked
    if cancelled then raise run_cancelled else pure false
  after_claim (err e) = raise (run_error (error_text e))

  unfoldable pub claim_run : Act T.Db Interruption Bool
  unfolding after_claim attempt
  claim_run = do
    lift (required o.has_environment "Environment config revision is required before running tests")
    lift (required o.has_suites "At least one test suite revision is required")
    claimed ← attempt (claim T id (some W.lease))
    after_claim claimed

  unfoldable pub cancel_now : ℕ → Option String → Act T.Db Interruption Bool
  unfolding call
  cancel_now started cleanup_error = do
    at ← now
    call (mark_cancelled T id (some (at - started)) cleanup_error)
    pure false

  -- Does the execution go on?
  unfoldable pub begin : ℕ → Act T.Db Interruption Bool
  unfolding asked claim_run cancel_now silently same_status
  begin started = do
    found ← query (λ db. T.find db id)
    run ← lift (found_run found)
    cancelled ← asked
    if cancelled
        then (do silently (request_cancel T id none none); cancel_now started none)
        else if same_status run.status queued
        then claim_run
        else pure false

  -- Up to the creation of the workspace.
  unfoldable pub prepare : Act T.Db Interruption Unit
  unfolding ensure enter
  prepare = do ensure o.signal_after_claim; enter preparing_workspace; lift o.workspace

  unfoldable pub run_suites : Act T.Db Interruption Stats
  unfolding enter
  run_suites = do
    stats ← lift o.suites
    enter collecting_artifacts
    lift o.logs
    enter cleaning_up
    pure stats

  unfoldable pub check_and_run : Act T.Db Interruption Stats
  unfolding ensure enter run_suites
  check_and_run = do
    ensure o.signal_before_healthcheck
    enter waiting_for_healthcheck
    lift o.healthcheck
    enter executing_tests
    run_suites

  unfoldable pub start_and_run : Act T.Db Interruption Stats
  unfolding enter check_and_run
  start_and_run = do
    enter pulling_images
    lift o.images
    enter starting_environment
    lift (when o.uses_docker o.docker_up)
    check_and_run

  -- Up to the end of the tests, with a workspace.
  unfoldable pub run_phases : Act T.Db Interruption Stats
  unfolding ensure enter start_and_run
  run_phases = do
    lift o.secrets
    enter validating_environment
    lift (when o.uses_docker o.compose)
    lift o.files
    ensure o.signal_before_images
    start_and_run

  unfoldable pub finish : ℕ → Stats → Act T.Db Interruption Bool
  unfolding asked cancel_now call show
  finish started stats = do
    cancelled ← asked
    at ← now
    if cancelled
        then cancel_now started o.cleanup_error
        else if ltb 0 stats.failed_tests
        then (do
          call (
              mark_test_failed T id stats (at - started)
                (show stats.failed_tests <> " test assertion(s) failed"))
          pure false)
        else (do call (mark_passed T id stats (at - started)); pure false)

  unfoldable pub cancelling : Interruption → Act T.Db Interruption Bool
  unfolding asked
  cancelling run_cancelled = pure true
  cancelling (run_error message) = asked

  unfoldable pub fail_run : ℕ → String → Act T.Db Interruption Unit
  unfolding failure_category_for silently
  fail_run started message = do
    current ← query (λ db. T.find db id)
    at ← now
    let category = failure_category_for (status_in current) message
    silently (
        if is_timeout_category category
        then mark_timed_out T id message (some (at - started))
        else mark_infra_failed T id category message (some (at - started)))

  -- The `catch` of `executeInternal`, with or without a workspace.
  unfoldable pub handle : ℕ → Bool → Interruption → Act T.Db Interruption Unit
  unfolding cancelling fail_run silently
  handle started has_workspace e = do
    query (λ db. T.find db id)
    cancelled ← cancelling e
    if cancelled
        then (do
          silently (request_cancel T id none none)
          at ← now
          silently (
              mark_cancelled T id (some (at - started))
                (if has_workspace then o.cleanup_error else none)))
        else fail_run started (W.mask (interruption_text e))

  unfoldable pub go_on :
      {A : Type 0}
      → ℕ
      → Bool
      → (A → Act T.Db Interruption Unit)
      → Result Interruption A
      → Act T.Db Interruption Unit
  unfolding handle
  go_on started has_workspace next (ok a) = next a
  go_on started has_workspace next (err e) = handle started has_workspace e

  -- What follows the tests, the preparation and the claim, in turn.
  unfoldable pub complete : ℕ → Stats → Act T.Db Interruption Unit
  unfolding finish go_on attempt
  complete started stats = do
    finished ← attempt (finish started stats)
    go_on started false (λ _. pure tt) finished

  unfoldable pub run_tests : ℕ → Unit {0} → Act T.Db Interruption Unit
  unfolding run_phases complete go_on attempt
  run_tests started u = do ran ← attempt run_phases; go_on started true (complete started) ran

  unfoldable pub proceed : ℕ → Bool → Act T.Db Interruption Unit
  unfolding prepare run_tests go_on attempt
  proceed started goes_on =
      if goes_on
      then (do prepared ← attempt prepare; go_on started false (run_tests started) prepared)
      else pure tt

  unfoldable pub execute_internal : Act T.Db Interruption Unit
  unfolding begin proceed go_on attempt
  execute_internal = do
    started ← now
    begun ← attempt (begin started)
    go_on started false (proceed started) begun
