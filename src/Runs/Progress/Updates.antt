-- ===== src/Runs/Progress/Updates.antt =====
-- Each update of the state service is a `Progress` step.
use testing_environment.Common.{ℕ, String, ◌≡◌, refl, true, false, Option, arith}
use testing_environment.Common.Result.{ok}
use testing_environment.Runs.Status.{
  TestRunStatus, queued, claimed, created, cancel_requested, cancelled, passed, test_failed,
  is_terminal, is_phase, is_active, same_status, allows,
}
use testing_environment.Runs.Status.Graph.{stay, next, Moves-of_check, same_status_lem}
use testing_environment.Runs.Run.{TestRun, Stats, LeaseOptions, FailureCategory}
use testing_environment.Runs.Rows.{assert_transition_allowed, is_waiting, is_leased_by}
use testing_environment.Runs.Updates.{
  claim_data, claimed_data, queued_data, cancel_requested_data, cancelled_data, passed_data,
  test_failed_data, failed_data, renewed_data, queued_if_created_data,
}
use testing_environment.Runs.Progress.{Progress, Suits, assert_transition_allowed-eq-ok}

phase_not_terminal : (s : TestRunStatus) → is_phase s ≡ true → is_terminal s ≡ false
unfolding is_phase is_terminal
phase_not_terminal s h = ground arith

active_not_terminal : (s : TestRunStatus) → is_active s ≡ true → is_terminal s ≡ false
unfolding is_active is_terminal
active_not_terminal s h = ground arith

claimed_lem : (is_terminal claimed ≡ false) × (is_phase claimed ≡ false)
unfolding is_terminal is_phase
claimed_lem = (refl, refl)

queued_lem : (is_terminal queued ≡ false) × (is_phase queued ≡ false)
unfolding is_terminal is_phase
queued_lem = (refl, refl)

created_lem :
    (is_terminal created ≡ false) × (is_phase created ≡ false) × (allows created queued ≡ true)
unfolding is_terminal is_phase allows
created_lem = (refl, refl, refl)

pub claimed_data-Suits : (at : ℕ) → Suits claimed (claimed_data at)
unfolding claimed_data is_terminal
claimed_data-Suits at = ground arith

pub queued_data-Suits : (job_id : String) (at : ℕ) → Suits queued (queued_data job_id at)
unfolding queued_data is_terminal
queued_data-Suits job_id at = ground arith

-- Entering a phase changes no column of its own.
pub phase-Suits : (phase : TestRunStatus) → is_phase phase ≡ true → Suits phase (λ r. r)
phase-Suits phase h = ground (arith, phase_not_terminal phase h)

pub cancel_requested_data-Suits :
    (by reason : Option String) (at : ℕ)
    → Suits cancel_requested (cancel_requested_data by reason at)
unfolding cancel_requested_data is_terminal
cancel_requested_data-Suits by reason at = ground arith

pub cancelled_data-Suits :
    (duration : Option ℕ) (e : Option String) (at : ℕ)
    → Suits cancelled (cancelled_data duration e at)
unfolding cancelled_data is_terminal
cancelled_data-Suits duration e at = ground arith

pub passed_data-Suits :
    (stats : Stats) (duration at : ℕ) → Suits passed (passed_data stats duration at)
unfolding passed_data is_terminal
passed_data-Suits stats duration at = ground arith

pub test_failed_data-Suits :
    (stats : Stats) (duration : ℕ) (reason : String) (at : ℕ)
    → Suits test_failed (test_failed_data stats duration reason at)
unfolding test_failed_data is_terminal
test_failed_data-Suits stats duration reason at = ground arith

pub failed_data-Suits :
    (target : TestRunStatus) (category : FailureCategory) (reason : String) (duration : Option ℕ)
    (at : ℕ)
    → is_terminal target ≡ true
    → Suits target (failed_data category reason duration at)
unfolding failed_data
failed_data-Suits target category reason duration at h = ground arith

pub claim_data-Progress :
    (run : TestRun) (lease : LeaseOptions) (at : ℕ) (r : TestRun) {u : Unit {0}}
    → assert_transition_allowed run claimed ≡ ok u
    → same_status r.status run.status ≡ true
    → Progress r (claim_data run lease at r)
unfolding claim_data
claim_data-Progress run lease at r checked same =
    let e = same_status_lem r.status run.status same in
    let (live, moves) = assert_transition_allowed-eq-ok run claimed checked in
    record {
      moves = rw e (Moves-of_check run.status claimed moves);
      keeps = λ c. ground (arith, c.finished, claimed_lem);
      attempts = omega arith;
      requested = λ h. h;
    }

pub renewed_data-Progress :
    (runner_id : String) (duration at : ℕ) (r : TestRun)
    → is_leased_by runner_id r ≡ true
    → Progress r (renewed_data duration at r)
unfolding renewed_data is_leased_by
renewed_data-Progress runner_id duration at r h =
    let live = active_not_terminal r.status (ground arith) in
    record {
      moves = stay;
      keeps = λ c. ground (arith, c.phase, c.finished, c.unowned);
      attempts = omega arith;
      requested = λ q. q;
    }

pub queued_if_created_data-Progress :
    (job_id : String) (at : ℕ) (r : TestRun)
    → is_waiting r ≡ true
    → Progress r (queued_if_created_data job_id at r)
unfolding queued_if_created_data is_waiting
queued_if_created_data-Progress job_id at r h =
    let e = same_status_lem r.status created (ground arith) in
    record {
      moves = rw e (next stay created_lem.2);
      keeps = λ c. ground (arith, e, c.phase, c.finished, queued_lem, created_lem);
      attempts = omega arith;
      requested = λ q. q;
    }
