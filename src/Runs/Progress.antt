-- ===== src/Runs/Progress.antt =====
-- What one update does to a run: its status moves by the transition table, and the columns that
-- belong to the status stay coherent with it.
pub mod Updates
use testing_environment.Common.{
  ℕ, ◌≤◌, ◌≡◌, refl, sym, ◌∙◌, ap, Bool-cases, inl, inr, true, false, Option, none, some, ◌||◌,
  is_some, if◌then◌else◌, arith,
}
use testing_environment.Common.Result.{Result, ok}
use testing_environment.Runs.Status.{
  TestRunStatus, is_terminal, is_phase, is_active, allows, same_status,
}
use testing_environment.Runs.Status.Graph.{
  Moves, stay, Moves-trans, Moves-of_check, same_status_lem,
}
use testing_environment.Runs.Run.{TestRun, StateError}
use testing_environment.Runs.Rows.{assert_transition_allowed}
use testing_environment.Runs.Updates.{transition_data}

-- The columns of a run that go with its status: the current phase is the status while that is a
-- phase, the run is finished exactly if the status is terminal, and no worker holds a lease then.
pub record IsCoherent (r : TestRun) : Type 0 where
  pub phase : r.current_phase ≡ (if is_phase r.status then some r.status else none)
  pub finished : is_some r.finished_at ≡ is_terminal r.status
  pub unowned : is_terminal r.status ≡ true → r.runner_id ≡ none
  pub released : is_terminal r.status ≡ true → r.lease_expires_at ≡ none
  pub silent : is_terminal r.status ≡ true → r.heartbeat_at ≡ none

pub record Progress (a b : TestRun) : Type 0 where
  pub moves : Moves a.status b.status
  pub keeps : IsCoherent a → IsCoherent b
  -- attempts are never taken back, and neither is a request for cancellation
  pub attempts : a.attempt ≤ b.attempt
  pub requested : is_some a.cancel_requested_at ≡ true → is_some b.cancel_requested_at ≡ true

pub Progress-refl : (a : TestRun) → Progress a a
Progress-refl a = record {
  moves = stay;
  keeps = λ h. h;
  attempts = omega arith;
  requested = λ h. h;
}

pub Progress-trans : (a b c : TestRun) → Progress a b → Progress b c → Progress a c
Progress-trans a b c h k = record {
  moves = Moves-trans h.moves k.moves;
  keeps = λ x. k.keeps (h.keeps x);
  attempts = omega arith;
  requested = λ x. k.requested (h.requested x);
}

-- The check passes only if the run is not over, and the target is its status or a move of the table.
pub assert_transition_allowed-eq-ok :
    (run : TestRun) (target : TestRunStatus) {u : Unit {0}}
    → assert_transition_allowed run target ≡ ok u
    → (is_terminal run.status ≡ false)
      × ((same_status run.status target || allows run.status target) ≡ true)
unfolding assert_transition_allowed
assert_transition_allowed-eq-ok run target h = ground arith

-- The changes of an operation that go with a transition to the target.
pub record Suits (target : TestRunStatus) (changes : TestRun → TestRun) : Type 0 where
  pub ends : (r : TestRun) → is_terminal target ≡ true → is_some (changes r).finished_at ≡ true
  pub goes_on : (r : TestRun) → is_terminal target ≡ false → (changes r).finished_at ≡ r.finished_at
  pub unowned : (r : TestRun) → is_terminal target ≡ true → (changes r).runner_id ≡ none
  pub released : (r : TestRun) → is_terminal target ≡ true → (changes r).lease_expires_at ≡ none
  pub silent : (r : TestRun) → is_terminal target ≡ true → (changes r).heartbeat_at ≡ none
  pub attempts : (r : TestRun) → r.attempt ≤ (changes r).attempt
  pub requested :
      (r : TestRun)
      → is_some r.cancel_requested_at ≡ true
      → is_some (changes r).cancel_requested_at ≡ true

module _ (run : TestRun) (target : TestRunStatus) (at : ℕ) (changes : TestRun → TestRun)
    (suits : Suits target changes) (r : TestRun) {u : Unit {0}}
    (checked : assert_transition_allowed run target ≡ ok u)
    (unchanged : same_status r.status run.status ≡ true) where
  status-eq : r.status ≡ run.status
  status-eq = same_status_lem r.status run.status unchanged

  live : is_terminal r.status ≡ false
  live = ap is_terminal status-eq ∙ (assert_transition_allowed-eq-ok run target checked).0

  transition_data-IsCoherent : IsCoherent r → IsCoherent (transition_data run target at changes r)
  unfolding transition_data
  transition_data-IsCoherent c = record {
    phase = refl;
    finished = elim (Bool-cases (is_terminal target)) [
      | inl e ↦ suits.ends r e ∙ sym e
      | inr e ↦ ap is_some (suits.goes_on r e) ∙ c.finished ∙ live ∙ sym e
    ];
    unowned = suits.unowned r;
    released = suits.released r;
    silent = suits.silent r;
  }

  pub transition_data-Progress : Progress r (transition_data run target at changes r)
  unfolding transition_data
  transition_data-Progress = record {
    moves =
        rw status-eq
          (Moves-of_check run.status target (assert_transition_allowed-eq-ok run target checked).1);
    keeps = transition_data-IsCoherent;
    attempts = suits.attempts r;
    requested = suits.requested r;
  }
