-- ===== src/Queue/Tests.antt =====
-- A queue beside the table of runs, and the theorems about it.
use testing_environment.Common.{
  String, ◌≡◌, refl, Bool, true, Option, none, some, List, [], ◌∷◌, if◌then◌else◌, or_else, str_eq,
}
use testing_environment.Common.Result.{ok}
use testing_environment.Common.Table.{Table, amend, matched}
use testing_environment.Runs.Status.{queued, cancelled, executing_tests, is_terminal}
use testing_environment.Runs.Run.{TestRun}
use testing_environment.Runs.Progress.{Progress}
use testing_environment.Runs.Operations.{Operation, Other, busy}
use testing_environment.Runs.Operations.Races.{quiet}
use testing_environment.Queue.{JobState, JobQueue, get_job_id, cancel}
use testing_environment.Queue.Progress.{QueueOperation, perform_queue, perform_queue-Progress}
use testing_environment.Queue.Recovery.{RunRef, recover_expired_lease, is_orphaned}
use testing_environment.Queue.Janitor.{recover_expired_lease_lem}
use testing_environment.Queue.Cancel.{cancel_queued_lem}

-- A store: the runs and the jobs.
abbrev Store : Type 0
Store = (String → Option TestRun) × (String → Option JobState)

abbrev T : Table TestRun
T = record {
  Db = Store;
  find = λ db key. db.0 key;
  update = λ db key cond patch.
      (λ other. if str_eq key other then amend cond patch (db.0 other) else db.0 other, db.1);
  count = λ db key cond. matched cond (db.0 key);
  find-update = λ db key other cond patch. refl;
  count_lem = λ db key cond. refl;
}

abbrev Q : JobQueue T
Q = record {
  job_state = λ db id. db.1 id;
  add = λ db id. (
    db.0,
    λ other. if str_eq id other then some (or_else (db.1 other) JobState.waiting) else db.1 other,
  );
  remove = λ db id. (db.0, λ other. if str_eq id other then none else db.1 other);
  state-add = λ db id other. refl;
  state-remove = λ db id other. refl;
  state-update = λ db key id cond patch. refl;
  find-add = λ db id key. refl;
  find-remove = λ db id key. refl;
}

abbrev row : TestRun
row = record {
  status = queued;
  status_reason = none;
  failure_category = none;
  current_phase = none;
  phase_timestamps = none;
  queue_job_id = some "test-run:run";
  queued_at = some 1;
  enqueued_at = some 1;
  claimed_at = none;
  cancellation_requested_at = none;
  cancel_requested_at = none;
  cancel_requested_by = none;
  cancellation_reason = none;
  runner_id = none;
  lease_acquired_at = none;
  lease_expires_at = none;
  heartbeat_at = none;
  attempt = 0;
  cleanup_error = none;
  started_at = none;
  finished_at = none;
  total_tests = 0;
  passed_tests = 0;
  failed_tests = 0;
  duration_ms = none;
  error_message = none;
}

abbrev store : Store
store = (
  λ id. if str_eq id "run" then some row else none,
  λ id. if str_eq id "test-run:run" then some JobState.delayed else none,
)

cancel_queued_lem_example :
    let (result, w) = cancel T Q "run" none (some "late") (quiet T store 7) in
    (r' : TestRun) × (result ≡ ok r')
    × (T.find w.db "run" ≡ some r')
    × (r'.status ≡ cancelled)
    × (r'.finished_at ≡ some 7)
    × (Q.job_state w.db (get_job_id "run") ≡ none)
cancel_queued_lem_example =
    cancel_queued_lem T Q "run" none (some "late") store 7 row JobState.delayed refl refl refl

abbrev claiming : List Other
claiming =
    record { id = "run"; operation = Operation.claim none; clock = 3; elapsed = 1 }
    ∷ record { id = "run"; operation = Operation.claim none; clock = 4; elapsed = 1 }
    ∷ []

-- `findMany` on a table that has one run at most.
abbrev only_run : (TestRun → Bool) → Store → List RunRef
only_run cond db = elim (db.0 "run") [
  | none ↦ []
  | some r ↦ if cond r then record { id = "run"; status = r.status } ∷ [] else []
]

perform_queue-Progress_example :
    (r' : TestRun) × (T.find
        (perform_queue T Q only_run "run"
          (QueueOperation.cancel none none)
          (busy T store 2 claiming)).1.db
        "run"
      ≡ some r')
    × Progress row r'
perform_queue-Progress_example =
    perform_queue-Progress T Q only_run "run" (QueueOperation.cancel none none) claiming store 2
      "run" row refl

abbrev lost : TestRun
lost = record row { status = executing_tests; lease_expires_at = some 5; runner_id = some "a" }

abbrev lost_store : Store
lost_store = (λ id. if str_eq id "run" then some lost else none, λ id. none)

recover_expired_lease_lem_example :
    let (result, w) =
      recover_expired_lease T Q only_run
        (record { id = "run"; status = executing_tests })
        (quiet T lost_store 9) in
    (r' : TestRun) × (result ≡ ok tt)
    × (T.find w.db "run" ≡ some r')
    × (is_terminal r'.status ≡ true)
    × (r'.finished_at ≡ some 9)
unfolding is_orphaned
recover_expired_lease_lem_example =
    recover_expired_lease_lem T "run" lost_store 9 lost refl Q only_run refl
