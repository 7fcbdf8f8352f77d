-- ===== src/Runs/State.antt =====
-- TestRunStateService (test-runs/test-run-state.service.ts), the transition and the operations that
-- start a run.
pub mod Ending
use Prim.Native.String
use testing_environment.Common.{
  ℕ, ◌+◌, String, ◌≡◌, Bool, true, false, ◌&&◌, ◌||◌, not, Option, none, some, List, [], ◌∷◌, ltb,
  ◌==◌, if◌then◌else◌, is_some, or_else, str_eq,
}
use testing_environment.Common.Result.{Result, ok, err}
use testing_environment.Common.Table.{Table}
use testing_environment.Common.Act.{Act, pure, raise, lift, query, command, now, ◌>>=◌, ◌>>◌, catch}
use testing_environment.Runs.Status.{
  TestRunStatus, created, queued, claimed, preparing_workspace, validating_environment,
  pulling_images, starting_environment, waiting_for_healthcheck, executing_tests,
  collecting_artifacts, cleaning_up, passed, test_failed, infra_failed, timed_out, cancel_requested,
  cancelled, is_terminal, is_phase, is_active, allows, same_status,
}
use testing_environment.Runs.Run.{
  FailureCategory, test_assertion, timeout, Stamp, iso, text, not_text, TestRun, Stats,
  LeaseOptions, StateError, run_not_found, from_terminal, invalid_transition, active_lease,
  changed_concurrently, not_a_phase, record_not_found, is_conflict,
}
use testing_environment.Runs.Updates.{claimed_data, queued_if_created_data}
use testing_environment.Runs.Rows.{
  or_keep, next_phase_timestamps, assert_transition_allowed, found_or, QueueState, queue_state,
  lease_is_free, is_waiting, is_leased_by, wants_cancellation,
}
use testing_environment.Runs.Updates.{
  cleared_lease_data, transition_data, claim_data, queued_data, cancel_status_reason,
}

module _ (T : Table TestRun) where
  unfoldable pub find_or_throw : String → Act T.Db StateError TestRun
  find_or_throw id = do found ← query (λ db. T.find db id); lift (found_or record_not_found found)

  unfoldable pub read_run : String → Act T.Db StateError TestRun
  read_run id = do found ← query (λ db. T.find db id); lift (found_or run_not_found found)

  -- `updateMany`, and the row if one was changed
  unfoldable pub update_run :
      String → (TestRun → Bool) → (TestRun → TestRun) → StateError → Act T.Db StateError TestRun
  unfolding find_or_throw
  update_run id cond changes failure = do
    count ← command (λ db. T.count db id cond) (λ db. T.update db id cond changes)
    if count == 0 then raise failure else find_or_throw id

  unfoldable pub transition :
      String → TestRunStatus → (TestRun → TestRun) → Act T.Db StateError TestRun
  unfolding read_run update_run assert_transition_allowed transition_data
  transition id target changes = do
    run ← read_run id
    lift (assert_transition_allowed run target)
    at ← now
    update_run id (λ r. same_status r.status run.status) (transition_data run target at changes)
        changed_concurrently

  claim_unleased : String → Act T.Db StateError TestRun
  claim_unleased id = do at ← now; transition id claimed (claimed_data at)

  claim_leased : String → LeaseOptions → Act T.Db StateError TestRun
  claim_leased id lease = do
    at ← now
    run ← read_run id
    lift (assert_transition_allowed run claimed)
    update_run id (λ r. same_status r.status run.status && lease_is_free at r.lease_expires_at)
        (claim_data run lease at) active_lease

  unfoldable pub claim : String → Option LeaseOptions → Act T.Db StateError TestRun
  unfolding claim_unleased claim_leased transition read_run update_run
  claim id none = claim_unleased id
  claim id (some lease) = claim_leased id lease

  unfoldable pub mark_queued : String → String → Act T.Db StateError TestRun
  unfolding transition
  mark_queued id job_id = do at ← now; transition id queued (queued_data job_id at)

  unfoldable pub get_queue_state : String → Act T.Db StateError QueueState
  unfolding read_run
  get_queue_state id = do run ← read_run id; pure (queue_state run)

  unfoldable pub mark_queued_if_created : String → String → Act T.Db StateError (Option TestRun)
  unfolding get_queue_state find_or_throw
  mark_queued_if_created id job_id = do
    at ← now
    count ←
        command (λ db. T.count db id is_waiting)
          (λ db. T.update db id is_waiting (queued_if_created_data job_id at))
    if count == 0
        then (do get_queue_state id; pure none)
        else (do run ← find_or_throw id; pure (some run))

  unfoldable pub enter_phase : String → TestRunStatus → Act T.Db StateError TestRun
  unfolding transition
  enter_phase id phase =
      if is_phase phase then transition id phase (λ r. r) else raise (not_a_phase phase)
