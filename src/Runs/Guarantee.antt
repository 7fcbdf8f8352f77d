-- ===== src/Runs/Guarantee.antt =====
-- Whatever else happens to the table meanwhile, each operation of the state service moves every run
-- by `Progress` steps only.
use testing_environment.Common.{
  ℕ, String, ◌≡◌, refl, Bool, true, false, ◌&&◌, Option, none, some, ◌==◌,
}
use testing_environment.Common.Table.{Table}
use testing_environment.Common.Act.{Act, now, ◌>>=◌}
use testing_environment.Common.Act.Guarantee.{
  Guarantees, Evolves-update, Guarantees-pure, Guarantees-raise, Guarantees-lift, Guarantees-query,
  Guarantees-command, Guarantees-if, Guarantees-now, Guarantees-bind_lift, Guarantees-bind,
  Guarantees-catch,
}
use testing_environment.Runs.Status.{
  TestRunStatus, queued, claimed, cancel_requested, cancelled, passed, test_failed, infra_failed,
  timed_out, is_terminal, is_phase, same_status,
}
use testing_environment.Runs.Run.{TestRun, Stats, LeaseOptions, StateError, FailureCategory}
use testing_environment.Runs.Rows.{assert_transition_allowed, is_waiting}
use testing_environment.Runs.Updates.{queued_data}
use testing_environment.Runs.State.{
  find_or_throw, read_run, update_run, transition, claim, mark_queued, get_queue_state,
  mark_queued_if_created, enter_phase,
}
use testing_environment.Runs.State.Ending.{
  request_cancel, mark_cancelled, mark_passed, mark_test_failed, mark_infra_failed, mark_timed_out,
  is_terminal_run, null_if_ended, try_mark, renew_lease, is_cancellation_requested,
}
use testing_environment.Runs.Progress.Updates.{
  claimed_data-Suits, queued_data-Suits, phase-Suits, cancel_requested_data-Suits,
  cancelled_data-Suits, passed_data-Suits, test_failed_data-Suits, failed_data-Suits,
  claim_data-Progress, renewed_data-Progress, queued_if_created_data-Progress,
}
use testing_environment.Runs.Updates.{claimed_data}
use testing_environment.Runs.Run.{is_conflict}
use testing_environment.Runs.Progress.{
  Progress, Progress-refl, Progress-trans, Suits, transition_data-Progress,
}

and_left : (a b : Bool) → (a && b) ≡ true → a ≡ true
and_left true b h = refl
and_left false b h = h

module _ (T : Table TestRun) where
  abbrev pub Safe : {A : Type 0} → Act T.Db StateError A → Type 0
  Safe m = Guarantees Progress T m

  Safe-bind :
      {A B : Type 0} (m : Act T.Db StateError A) (f : A → Act T.Db StateError B)
      → Safe m
      → ((a : A) → Safe (f a))
      → Safe (m >>= f)
  Safe-bind m f = Guarantees-bind Progress-refl Progress-trans T m f

  Safe-now :
      {B : Type 0} (f : ℕ → Act T.Db StateError B) → ((at : ℕ) → Safe (f at)) → Safe (now >>= f)
  Safe-now f k = Safe-bind now f (Guarantees-now Progress-refl Progress-trans T) k

  pub find_or_throw-Safe : (id : String) → Safe (find_or_throw T id)
  unfolding find_or_throw
  find_or_throw-Safe id =
      Safe-bind _ _ (Guarantees-query Progress-refl Progress-trans T _)
        (λ found. Guarantees-lift Progress-refl Progress-trans T _)

  pub read_run-Safe : (id : String) → Safe (read_run T id)
  unfolding read_run
  read_run-Safe id =
      Safe-bind _ _ (Guarantees-query Progress-refl Progress-trans T _)
        (λ found. Guarantees-lift Progress-refl Progress-trans T _)

  pub update_run-Safe :
      (id : String) (cond : TestRun → Bool) (changes : TestRun → TestRun) (e : StateError)
      → ((r : TestRun) → cond r ≡ true → Progress r (changes r))
      → Safe (update_run T id cond changes e)
  unfolding update_run
  update_run-Safe id cond changes e h =
      Safe-bind _ _
        (Guarantees-command Progress-refl Progress-trans T _ _
          (λ db. Evolves-update Progress-refl Progress-trans T db id cond changes h))
        (λ count.
          Guarantees-if Progress-refl Progress-trans T (count == 0) _ _
            (λ _. Guarantees-raise Progress-refl Progress-trans T e) (λ _. find_or_throw-Safe id))

  pub transition-Safe :
      (id : String) (target : TestRunStatus) (changes : TestRun → TestRun)
      → Suits target changes
      → Safe (transition T id target changes)
  unfolding transition
  transition-Safe id target changes suits = Safe-bind _ _ (read_run-Safe id) (λ run.
      Guarantees-bind_lift Progress-refl Progress-trans T (assert_transition_allowed run target) _
        (λ u checked. Safe-now _ (λ at.
          update_run-Safe id _ _ _
            (λ r e. transition_data-Progress run target at changes suits r checked e))))

  pub marking-Safe :
      (id : String) (target : TestRunStatus) (changes : ℕ → TestRun → TestRun)
      → ((at : ℕ) → Suits target (changes at))
      → Safe (now >>= λ at. transition T id target (changes at))
  marking-Safe id target changes suits =
      Safe-now _ (λ at. transition-Safe id target (changes at) (suits at))

  pub claim-Safe : (id : String) (lease : Option LeaseOptions) → Safe (claim T id lease)
  unfolding claim
  claim-Safe id none = marking-Safe id claimed claimed_data claimed_data-Suits
  claim-Safe id (some lease) = Safe-now _ (λ at. Safe-bind _ _ (read_run-Safe id) (λ run.
      Guarantees-bind_lift Progress-refl Progress-trans T (assert_transition_allowed run claimed) _
        (λ u checked. update_run-Safe id _ _ _ (λ r e.
          claim_data-Progress run lease at r checked
            (and_left (same_status r.status run.status) _ e)))))

  pub mark_queued-Safe : (id job_id : String) → Safe (mark_queued T id job_id)
  unfolding mark_queued
  mark_queued-Safe id job_id =
      marking-Safe id queued (queued_data job_id) (queued_data-Suits job_id)

  pub get_queue_state-Safe : (id : String) → Safe (get_queue_state T id)
  unfolding get_queue_state
  get_queue_state-Safe id =
      Safe-bind _ _ (read_run-Safe id) (λ run. Guarantees-pure Progress-refl Progress-trans T _)

  pub mark_queued_if_created-Safe : (id job_id : String) → Safe (mark_queued_if_created T id job_id)
  unfolding mark_queued_if_created
  mark_queued_if_created-Safe id job_id = Safe-now _ (λ at.
      Safe-bind _ _
        (Guarantees-command Progress-refl Progress-trans T _ _ (λ db.
          Evolves-update Progress-refl Progress-trans T db id is_waiting _
            (queued_if_created_data-Progress job_id at)))
        (λ count.
          Guarantees-if Progress-refl Progress-trans T (count == 0) _ _
            (λ _.
              Safe-bind _ _ (get_queue_state-Safe id)
                (λ _. Guarantees-pure Progress-refl Progress-trans T _))
            (λ _.
              Safe-bind _ _ (find_or_throw-Safe id)
                (λ run. Guarantees-pure Progress-refl Progress-trans T _))))

  pub enter_phase-Safe : (id : String) (phase : TestRunStatus) → Safe (enter_phase T id phase)
  unfolding enter_phase
  enter_phase-Safe id phase =
      Guarantees-if Progress-refl Progress-trans T (is_phase phase) _ _
        (λ e. transition-Safe id phase (λ r. r) (phase-Suits phase e))
        (λ e. Guarantees-raise Progress-refl Progress-trans T _)

  pub request_cancel-Safe :
      (id : String) (by reason : Option String) → Safe (request_cancel T id by reason)
  unfolding request_cancel
  request_cancel-Safe id by reason =
      marking-Safe id cancel_requested _ (cancel_requested_data-Suits by reason)

  pub mark_cancelled-Safe :
      (id : String) (duration : Option ℕ) (e : Option String)
      → Safe (mark_cancelled T id duration e)
  unfolding mark_cancelled
  mark_cancelled-Safe id duration e = marking-Safe id cancelled _ (cancelled_data-Suits duration e)

  pub mark_passed-Safe :
      (id : String) (stats : Stats) (duration : ℕ) → Safe (mark_passed T id stats duration)
  unfolding mark_passed
  mark_passed-Safe id stats duration = marking-Safe id passed _ (passed_data-Suits stats duration)

  pub mark_test_failed-Safe :
      (id : String) (stats : Stats) (duration : ℕ) (reason : String)
      → Safe (mark_test_failed T id stats duration reason)
  unfolding mark_test_failed
  mark_test_failed-Safe id stats duration reason =
      marking-Safe id test_failed _ (test_failed_data-Suits stats duration reason)

  pub mark_infra_failed-Safe :
      (id : String) (category : FailureCategory) (reason : String) (duration : Option ℕ)
      → Safe (mark_infra_failed T id category reason duration)
  unfolding mark_infra_failed is_terminal
  mark_infra_failed-Safe id category reason duration =
      marking-Safe id infra_failed _
        (λ at. failed_data-Suits infra_failed category reason duration at refl)

  pub mark_timed_out-Safe :
      (id : String) (reason : String) (duration : Option ℕ)
      → Safe (mark_timed_out T id reason duration)
  unfolding mark_timed_out is_terminal
  mark_timed_out-Safe id reason duration =
      marking-Safe id timed_out _ (λ at. failed_data-Suits timed_out _ reason duration at refl)

  pub is_terminal_run-Safe : (id : String) → Safe (is_terminal_run T id)
  unfolding is_terminal_run
  is_terminal_run-Safe id =
      Safe-bind _ _ (read_run-Safe id) (λ run. Guarantees-pure Progress-refl Progress-trans T _)

  pub null_if_ended-Safe : (id : String) (e : StateError) → Safe (null_if_ended T id e)
  unfolding null_if_ended
  null_if_ended-Safe id e =
      Guarantees-if Progress-refl Progress-trans T (is_conflict e) _ _
        (λ _. Safe-bind _ _ (is_terminal_run-Safe id) (λ ended.
          Guarantees-if Progress-refl Progress-trans T ended _ _
            (λ _. Guarantees-pure Progress-refl Progress-trans T _)
            (λ _. Guarantees-raise Progress-refl Progress-trans T e)))
        (λ _. Guarantees-raise Progress-refl Progress-trans T e)

  pub try_mark-Safe :
      (id : String) (mark : Act T.Db StateError TestRun) → Safe mark → Safe (try_mark T id mark)
  unfolding try_mark
  try_mark-Safe id mark h = Safe-bind _ _ (is_terminal_run-Safe id) (λ ended.
      Guarantees-if Progress-refl Progress-trans T ended _ _
        (λ _. Guarantees-pure Progress-refl Progress-trans T _)
        (λ _.
          Guarantees-catch Progress-refl Progress-trans T _ _
            (Safe-bind _ _ h (λ run. Guarantees-pure Progress-refl Progress-trans T _))
            (null_if_ended-Safe id)))

  pub renew_lease-Safe :
      (id runner_id : String) (duration : ℕ) → Safe (renew_lease T id runner_id duration)
  unfolding renew_lease
  renew_lease-Safe id runner_id duration = Safe-now _ (λ at.
      Safe-bind _ _
        (Guarantees-command Progress-refl Progress-trans T _ _ (λ db.
          Evolves-update Progress-refl Progress-trans T db id _ _
            (renewed_data-Progress runner_id duration at)))
        (λ count. Guarantees-pure Progress-refl Progress-trans T _))

  pub is_cancellation_requested-Safe : (id : String) → Safe (is_cancellation_requested T id)
  unfolding is_cancellation_requested
  is_cancellation_requested-Safe id =
      Safe-bind _ _ (Guarantees-query Progress-refl Progress-trans T _)
        (λ found. Guarantees-pure Progress-refl Progress-trans T _)
