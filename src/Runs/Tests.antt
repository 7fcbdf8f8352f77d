-- ===== src/Runs/Tests.antt =====
-- Runs of the state service on concrete tables, and the theorems about it at concrete inputs.
use testing_environment.Common.{
  ℕ, String, ◌≡◌, refl, ◌≢◌, true, false, Option, none, some, List, [], ◌∷◌, if◌then◌else◌, str_eq,
}
use testing_environment.Common.Result.{ok, err}
use testing_environment.Common.Table.{Table, map_table, map_update}
use testing_environment.Common.Act.{Meanwhile, World, ◌>>=◌}
use testing_environment.Runs.Status.{
  TestRunStatus, created, queued, claimed, preparing_workspace, validating_environment,
  pulling_images, starting_environment, waiting_for_healthcheck, executing_tests,
  collecting_artifacts, cleaning_up, passed, cancel_requested, cancelled, is_terminal, is_phase,
  is_active, same_status, allows, is_cancellable,
}
use testing_environment.Runs.Status.Graph.{cancel_gap}
use testing_environment.Runs.Run.{TestRun, LeaseOptions, StateError, internal, changed_concurrently}
use testing_environment.Runs.Rows.{is_waiting, next_phase_timestamps, assert_transition_allowed}
use testing_environment.Runs.Updates.{
  claimed_data, transition_data, claim_data, queued_data, queued_if_created_data, passed_data,
}
use testing_environment.Runs.State
use testing_environment.Runs.State.{transition, claim}
use testing_environment.Runs.State.Ending
use testing_environment.Runs.State.Ending.{renew_lease, try_mark_infra_failed}
use testing_environment.Runs.Progress.{Progress}
use testing_environment.Runs.Operations.{Operation, Other, perform, busy, perform-Progress}
use testing_environment.Runs.Operations.Races.{calm, rival, claim_race, transition_race}
use testing_environment.Runs.Operations.Quiet.{transition_lem, may_move}
use testing_environment.Runs.Operations.Leases.{
  IsHeldBy, Moment, renew_lease_lem, try_mark_infra_failed_race,
}

abbrev T : Table TestRun
T = map_table TestRun

abbrev fresh : TestRun
fresh = record {
  status = created;
  status_reason = none;
  failure_category = none;
  current_phase = none;
  phase_timestamps = none;
  queue_job_id = none;
  queued_at = none;
  enqueued_at = none;
  claimed_at = none;
  cancellation_requested_at = none;
  cancel_requested_at = none;
  cancel_requested_by = none;
  cancellation_reason = none;
  runner_id = none;
  lease_acquired_at = none;
  lease_expires_at = none;
  heartbeat_at = none;
  attempt = 0;
  cleanup_error = none;
  started_at = none;
  finished_at = none;
  total_tests = 0;
  passed_tests = 0;
  failed_tests = 0;
  duration_ms = none;
  error_message = none;
}

abbrev waiting : TestRun
waiting = record fresh { status = queued }

abbrev only : TestRun → String → Option TestRun
only r id = if str_eq id "run" then some r else none

abbrev quiet : (String → Option TestRun) → ℕ → World (String → Option TestRun)
quiet db clock = record { db = db; clock = clock; schedule = [] }

abbrev a : LeaseOptions
a = record { runner_id = "a"; lease_duration_ms = 100 }

abbrev b : LeaseOptions
b = record { runner_id = "b"; lease_duration_ms = 100 }

-- All that a run of an operation computes with.
operations : Unit {0}
unfolding perform map_update claim State.mark_queued State.mark_queued_if_created State.enter_phase
    Ending.mark_passed Ending.mark_cancelled is_terminal is_phase is_active same_status allows
    is_waiting assert_transition_allowed transition_data claim_data queued_if_created_data
    queued_data passed_data ◌>>=◌ next_phase_timestamps
operations = tt

status_after : (String → Option TestRun) → List Operation → Option TestRunStatus
status_after db [] = elim (db "run") [ none ↦ none | some r ↦ some r.status ]
status_after db (op ∷ ops) = status_after (perform T "run" op (quiet db 5)).1.db ops

-- The life of a run that passes.
life :
    status_after (only fresh) (
      Operation.mark_queued_if_created "job"
      ∷ Operation.claim (some a)
      ∷ Operation.enter_phase preparing_workspace
      ∷ Operation.enter_phase validating_environment
      ∷ Operation.enter_phase pulling_images
      ∷ Operation.enter_phase starting_environment
      ∷ Operation.enter_phase waiting_for_healthcheck
      ∷ Operation.enter_phase executing_tests
      ∷ Operation.enter_phase collecting_artifacts
      ∷ Operation.enter_phase cleaning_up
      ∷ Operation.mark_passed (record { total_tests = 1; passed_tests = 1; failed_tests = 0 }) 7
      ∷ Operation.mark_cancelled none none
      ∷ [])
    ≡ some passed
unfolding status_after operations
life = refl

cancel_gap_example :
    (cleaning_up ≢ cleaning_up → is_cancellable cleaning_up ≡ allows cleaning_up cancel_requested)
    × (cleaning_up ≡ cleaning_up
        → (is_cancellable cleaning_up ≡ true) × (allows cleaning_up cancel_requested ≡ false))
cancel_gap_example = cancel_gap cleaning_up

-- `b` claims a run while the janitor gives up and `a` claims.
abbrev crowd : List Other
crowd =
    record { id = "run"; operation = Operation.claim (some a); clock = 3; elapsed = 1 }
    ∷ record {
      id = "run";
      operation = Operation.try_mark_infra_failed internal "lost" none;
      clock = 9;
      elapsed = 2;
    }
    ∷ []

perform-Progress_example :
    (r' : TestRun) × (T.find
        (perform T "run" (Operation.claim (some b)) (busy T (only waiting) 2 crowd)).1.db
        "run"
      ≡ some r')
    × Progress waiting r'
perform-Progress_example =
    perform-Progress T "run" (Operation.claim (some b)) crowd (only waiting) 2 "run" waiting refl

claim_race_example :
    (e : StateError) × ((claim T "run"
        (some b)
        (record { db = only waiting; clock = 2; schedule = calm T ∷ rival T "run" a 2 4 ∷ [] })).0
      ≡ err e)
claim_race_example = claim_race T "run" a b (only waiting) 2 4 []

abbrev cancelling : Meanwhile (String → Option TestRun)
cancelling = record {
  writes = λ db. only (record waiting { status = cancel_requested });
  elapsed = 1;
}

transition_race_example :
    let (result, w) =
      transition T "run" claimed
        (λ r. r)
        (record { db = only waiting; clock = 2; schedule = calm T ∷ cancelling ∷ [] }) in
    (result ≡ err changed_concurrently)
    × (T.find w.db "run" ≡ some (record waiting { status = cancel_requested }))
unfolding assert_transition_allowed is_terminal same_status allows
transition_race_example =
    transition_race T "run" claimed (λ r. r) (only waiting) 2 cancelling [] waiting
      (record waiting { status = cancel_requested }) {u = tt} refl refl refl refl

abbrev held : TestRun
held = record waiting { status = claimed; runner_id = some "a"; lease_expires_at = some 50 }

held-IsHeldBy : IsHeldBy "a" held
unfolding is_active
held-IsHeldBy = record { mine = refl; unfinished = refl; active = refl }

-- The run "run" is held by "a", who renews the lease, and "b" does not hold it.
renew_lease_lem_example :
    let (result, w) =
      renew_lease T "run" "a" 100 (record { db = only held; clock = 40; schedule = calm T ∷ [] }) in
    (IsHeldBy "a" held
      → (result ≡ ok true)
        × (T.find w.db "run"
            ≡ some (record held { heartbeat_at = some 40; lease_expires_at = some 140 })))
    × (¬ IsHeldBy "a" held → (result ≡ ok false) × (T.find w.db "run" ≡ some held))
    × ((other : String) → str_eq "run" other ≡ false → T.find w.db other ≡ T.find (only held) other)
renew_lease_lem_example = renew_lease_lem T "run" "a" 100 40 (only held) (calm T) held refl

abbrev over : TestRun
over = record held { status = cancelled; finished_at = some 41 }

abbrev ending : Meanwhile (String → Option TestRun)
ending = record { writes = λ db. only over; elapsed = 1 }

try_mark_infra_failed_race_example :
    let (result, w) =
      try_mark_infra_failed T "run" internal "lost" none
        (record { db = only held; clock = 40; schedule = calm T ∷ calm T ∷ ending ∷ [] }) in
    (result ≡ ok none) × ((key : String) → T.find w.db key ≡ only over key)
unfolding is_terminal
try_mark_infra_failed_race_example =
    try_mark_infra_failed_race T Moment.update "run" internal "lost" none (only held) 40 ending held
      over refl refl refl refl

transition_lem_example :
    let (result, w) = transition T "run" claimed (claimed_data 2) (quiet (only waiting) 2) in
    (may_move queued claimed ≡ true
      → (r' : TestRun) × (result ≡ ok r')
        × (T.find w.db "run" ≡ some r')
        × (r'.status ≡ claimed)
        × (r'.current_phase ≡ (if is_phase claimed then some claimed else none))
        × (r' ≡ record (claimed_data 2 waiting) {
          status = r'.status;
          current_phase = r'.current_phase;
          phase_timestamps = r'.phase_timestamps;
        }))
    × (may_move queued claimed ≡ false
        → ((e : StateError) × (result ≡ err e)) × (w.db ≡ only waiting))
    × ((other : String)
        → str_eq "run" other ≡ false
        → T.find w.db other ≡ T.find (only waiting) other)
transition_lem_example =
    transition_lem T "run" claimed (claimed_data 2) (only waiting) 2 waiting refl
