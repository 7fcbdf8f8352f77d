-- ===== src/Queue/Janitor.antt =====
-- What the janitor does to a run whose lease has expired.
use testing_environment.Common.{
  ℕ, String, ◌≡◌, refl, Bool, true, false, none, some, List, arith, inl, inr, Bool-cases,
}
use package.text.Mathlib.TextPositions.{eq_refl}
use testing_environment.Common.Result.{ok}
use testing_environment.Common.Table.{Table}
use testing_environment.Common.Act.{Act, catch, ◌>>=◌}
use testing_environment.Runs.Status.{
  cancelled, infra_failed, cancel_requested, is_terminal, is_phase, same_status, allows,
}
use testing_environment.Runs.Run.{TestRun, StateError, internal}
use testing_environment.Runs.Rows.{assert_transition_allowed}
use testing_environment.Runs.Updates.{transition_data, failed_data, cancelled_data}
use testing_environment.Runs.State.{read_run}
use testing_environment.Runs.State.Ending.{
  mark_infra_failed, mark_cancelled, try_mark_infra_failed, try_mark_cancelled, is_terminal_run,
  try_mark,
}
use testing_environment.Runs.Operations.Races.{quiet, same_status_refl}
use testing_environment.Runs.Operations.Quiet.{transition_done}
use testing_environment.Queue.{JobQueue}
use testing_environment.Queue.Recovery.{RunRef, is_orphaned, recover_expired_lease}

orphan_live : (at : ℕ) (r : TestRun) → is_orphaned at r ≡ true → is_terminal r.status ≡ false
unfolding is_orphaned is_terminal is_phase same_status
orphan_live at r h = ground arith

orphan_fails :
    (at : ℕ) (r : TestRun)
    → is_orphaned at r ≡ true
    → same_status r.status cancel_requested ≡ false
    → assert_transition_allowed r infra_failed ≡ ok tt
unfolding is_orphaned is_terminal is_phase same_status assert_transition_allowed allows
orphan_fails at r h k = ground arith

orphan_cancels :
    (r : TestRun)
    → same_status r.status cancel_requested ≡ true
    → assert_transition_allowed r cancelled ≡ ok tt
unfolding is_terminal same_status assert_transition_allowed allows
orphan_cancels r k = ground arith

module _ (T : Table TestRun) (id : String) (db : T.Db) (at : ℕ) (r : TestRun)
    (found : T.find db id ≡ some r) where
  found_updated :
      (patch : TestRun → TestRun)
      → T.find (T.update db id (λ x. same_status x.status r.status) patch) id ≡ some (patch r)
  found_updated patch = rw (T.find-update, eq_refl, found, same_status_refl) refl

  try_mark_done :
      (mark : Act T.Db StateError TestRun) (r' : TestRun) (db' : T.Db)
      → is_terminal r.status ≡ false
      → mark (quiet T db at) ≡ (ok r', quiet T db' at)
      → try_mark T id mark (quiet T db at) ≡ (ok (some r'), quiet T db' at)
  unfolding try_mark is_terminal_run read_run catch ◌>>=◌
  try_mark_done mark r' db' live done = rw found (rw live (rw done refl))

  module _ (Q : JobQueue T) (find_many : (TestRun → Bool) → T.Db → List RunRef) where
    -- With nobody else at work, the janitor ends a run whose lease has expired: its status is terminal and it is
    -- finished.
    pub recover_expired_lease_lem :
        is_orphaned at r ≡ true
        → let (result, w) =
            recover_expired_lease T Q find_many
              (record { id = id; status = r.status })
              (quiet T db at) in
          (r' : TestRun) × (result ≡ ok tt)
          × (T.find w.db id ≡ some r')
          × (is_terminal r'.status ≡ true)
          × (r'.finished_at ≡ some at)
    unfolding recover_expired_lease try_mark_infra_failed try_mark_cancelled mark_infra_failed
        mark_cancelled ◌>>=◌ transition_data failed_data cancelled_data is_terminal
    recover_expired_lease_lem orphan = elim (Bool-cases (same_status r.status cancel_requested)) [
      | inl e ↦
          let changes =
            cancelled_data none (some "Worker lease expired before cleanup confirmation") at in
          let done =
            transition_done T id cancelled changes db at r {u = tt} found (orphan_cancels r e) in
          let marked =
            try_mark_done
              (mark_cancelled T id none (some "Worker lease expired before cleanup confirmation")) _
              _ (orphan_live at r orphan) done in
          rw e (
            rw marked (
              transition_data r cancelled at changes r,
              refl,
              found_updated (transition_data r cancelled at changes),
              refl,
              refl,
            ))
      | inr e ↦
          let reason : String =
            "Worker execution lease expired; run was not retried automatically" in
          let changes = failed_data internal reason none at in
          let done =
            transition_done T id infra_failed changes db at r {u = tt} found
              (orphan_fails at r orphan e) in
          let marked =
            try_mark_done (mark_infra_failed T id internal reason none) _ _
              (orphan_live at r orphan) done in
          rw e (
            rw marked (
              transition_data r infra_failed at changes r,
              refl,
              found_updated (transition_data r infra_failed at changes),
              refl,
              refl,
            ))
    ]
