-- ===== src/Runner/Lifecycle/Tests.antt =====
-- Executions of a run, alone and among other workers.
use testing_environment.Common.{
  String, true, false, Option, none, some, List, [], ◌∷◌, if◌then◌else◌, str_eq, ◌≡◌, refl,
}
use testing_environment.Common.Result.{ok, err}
use testing_environment.Common.Table.{Table, map_table, map_update}
use testing_environment.Common.Act.{Meanwhile, World, ◌>>=◌}
use testing_environment.Runs.Status.{
  TestRunStatus, queued, preparing_workspace, infra_failed, test_failed, timed_out, cancelled,
  is_terminal, is_phase, allows, same_status,
}
use testing_environment.Runs.Run.{TestRun, test_assertion, timeout}
use testing_environment.Runs.Operations.{Operation, Other, busy, perform}
use testing_environment.Runs.Rows.{wants_cancellation, is_leased_by}
use testing_environment.Runs.Updates.{claim_data, failed_data}
use testing_environment.Runs.State.{claim, enter_phase}
use testing_environment.Runs.State.Ending.{
  renew_lease, is_cancellation_requested, mark_infra_failed,
}
use testing_environment.Runs.Progress.{Progress}
use testing_environment.Runner.{run_cancelled, run_error}
use testing_environment.Runner.Outcomes.{Outcomes, Worker}
use testing_environment.Runner.Lifecycle.{execute_internal}
use testing_environment.Runner.Lifecycle.Alone.{Spares}
use testing_environment.Runner.Lifecycle.Safety.{execute_internal-Progress}
use testing_environment.Runner.Lifecycle.Verdict.{verdict, IsSeen}
use testing_environment.Runner.Lifecycle.Refinement.{IsReady, execute_internal_lem}

abbrev waiting : TestRun
waiting = record {
  status = queued;
  status_reason = none;
  failure_category = none;
  current_phase = none;
  phase_timestamps = none;
  queue_job_id = none;
  queued_at = none;
  enqueued_at = none;
  claimed_at = none;
  cancellation_requested_at = none;
  cancel_requested_at = none;
  cancel_requested_by = none;
  cancellation_reason = none;
  runner_id = none;
  lease_acquired_at = none;
  lease_expires_at = none;
  heartbeat_at = none;
  attempt = 0;
  cleanup_error = none;
  started_at = none;
  finished_at = none;
  total_tests = 0;
  passed_tests = 0;
  failed_tests = 0;
  duration_ms = none;
  error_message = none;
}

abbrev only : TestRun → String → Option TestRun
only r id = if str_eq id "run" then some r else none

abbrev T : Table TestRun
T = map_table TestRun

abbrev worker : String → Worker
worker id = record { lease = record { runner_id = id; lease_duration_ms = 60000 }; mask = λ s. s }

abbrev fine : Outcomes
fine = record {
  has_environment = true;
  has_suites = true;
  uses_docker = true;
  signal_after_claim = ok tt;
  workspace = ok tt;
  secrets = ok tt;
  compose = ok tt;
  files = ok tt;
  signal_before_images = ok tt;
  images = ok tt;
  docker_up = ok tt;
  signal_before_healthcheck = ok tt;
  healthcheck = ok tt;
  suites = ok (record { total_tests = 3; passed_tests = 2; failed_tests = 1 });
  logs = ok tt;
  cleanup_error = none;
}

abbrev unhealthy : Outcomes
unhealthy = record fine { healthcheck = err (run_error "Health check timed out") }

abbrev called_off : Outcomes
called_off = record fine { suites = err run_cancelled }

abbrev seen : Option TestRun → Option (TestRunStatus × Option String)
seen none = none
seen (some r) = some (r.status, r.error_message)

abbrev outcome : World (String → Option TestRun) → Outcomes → Option (TestRunStatus × Option String)
unfolding execute_internal
outcome w o = seen ((execute_internal T (worker "b") o "run" w).1.db "run")

computed : Unit {0}
unfolding execute_internal perform ◌>>=◌ renew_lease map_update is_cancellation_requested claim
    is_terminal is_leased_by allows wants_cancellation claim_data enter_phase is_phase
    mark_infra_failed failed_data same_status
computed = tt

-- A test that fails, a health check that times out, and a cancellation while the tests run.
verdicts :
    (verdict (λ s. s) fine ≡ record {
      status = test_failed;
      category = some test_assertion;
      message = some "1 test assertion(s) failed";
    })
    × (verdict (λ s. s) unhealthy ≡ record {
      status = timed_out;
      category = some timeout;
      message = some "Health check timed out";
    })
    × ((verdict (λ s. s) called_off).status ≡ cancelled)
unfolding verdict
verdicts = (refl, refl, refl)

-- Between the reads of worker b, worker a claims the run and enters its first phase.
abbrev rivals : List Other
rivals =
    record { id = "run"; operation = Operation.renew_lease "c" 1; clock = 100; elapsed = 1 }
    ∷ record {
      id = "run";
      operation = Operation.claim (some (worker "a").lease);
      clock = 101;
      elapsed = 1;
    }
    ∷ record {
      id = "run";
      operation = Operation.enter_phase preparing_workspace;
      clock = 102;
      elapsed = 1;
    }
    ∷ []

-- The worker that comes too late ends the run of the other.
too_late :
    outcome (busy T (only waiting) 100 rivals) fine
    ≡ some (infra_failed, some "Invalid test run status transition: PREPARING_WORKSPACE -> CLAIMED")
unfolding computed
too_late = refl

execute_internal-Progress_example :
    (r' : TestRun) × ((execute_internal T
          (worker "b")
          fine
          "run"
          (busy T (only waiting) 100 rivals)).1.db
        "run"
      ≡ some r')
    × Progress waiting r'
execute_internal-Progress_example =
    execute_internal-Progress T (worker "b") fine "run" rivals (only waiting) 100 "run" waiting refl

unwanted : wants_cancellation waiting ≡ false
unfolding wants_cancellation same_status
unwanted = refl

ready : IsReady T "run" (worker "b") unhealthy 100 (only waiting)
ready = record {
  holds = record { run = waiting; found = refl; in_status = refl; wanted = unwanted };
  free = refl;
}

-- Meanwhile another run is claimed, and time passes.
abbrev elsewhere : List (Meanwhile T.Db)
elsewhere =
    record {
      writes = λ db. map_update db "other" (λ r. true) (claim_data waiting (worker "a").lease 101);
      elapsed = 5;
    }
    ∷ record { writes = λ db. db; elapsed = 2000 }
    ∷ []

abbrev shared : World T.Db
shared = record { db = only waiting; clock = 100; schedule = elsewhere }

spared : Spares T "run" 100 elsewhere
unfolding map_update
spared = (λ db. refl, (λ db. refl, tt))

execute_internal_lem_example :
    IsSeen T "run"
      (verdict (λ s. s) unhealthy)
      (execute_internal T (worker "b") unhealthy "run" shared).1.db
execute_internal_lem_example =
    execute_internal_lem T "run" (worker "b") unhealthy shared spared ready
