-- ===== src/Runner/Outcomes.antt =====
-- What an execution meets outside of the table, and the errors of its calls (runner/runner-orchestrator.service.ts, with the
-- messages of test-runs/test-run-state.service.ts).
use testing_environment.Common.{String, Bool, true, false, Option, none, some}
use testing_environment.Common.Text.{◌<>◌}
use testing_environment.Common.Result.{Result, ok, err}
use testing_environment.Common.Act.{Act, pure, ◌>>◌}
use testing_environment.Runs.Status.{TestRunStatus}
use testing_environment.Runs.Run.{
  TestRun, Stats, LeaseOptions, FailureCategory, StateError, run_not_found, from_terminal,
  invalid_transition, active_lease, changed_concurrently, not_a_phase, record_not_found,
  queue_failed, timeout,
}
use testing_environment.Runs.Rows.{status_name}
use testing_environment.Runner.{Interruption, run_cancelled, run_error}

-- What happens outside of the table: `secrets` with the log that comes before, `compose`, `docker_up` and `healthcheck`
-- with the notes on the run that go with them, `images` the log between the phases of the environment, and `logs` those of the
-- containers. The signals are those of the execution context at the three places that look at it. No place of the source
-- throws a `TestRunTimeoutError`, so an interruption is not one.
pub record Outcomes : Type 0 where
  pub has_environment : Bool
  pub has_suites : Bool
  pub uses_docker : Bool
  pub signal_after_claim : Result Interruption Unit
  pub workspace : Result Interruption Unit
  pub secrets : Result Interruption Unit
  pub compose : Result Interruption Unit
  pub files : Result Interruption Unit
  pub signal_before_images : Result Interruption Unit
  pub images : Result Interruption Unit
  pub docker_up : Result Interruption Unit
  pub signal_before_healthcheck : Result Interruption Unit
  pub healthcheck : Result Interruption Unit
  pub suites : Result Interruption Stats
  pub logs : Result Interruption Unit
  pub cleanup_error : Option String

pub record Worker : Type 0 where
  pub lease : LeaseOptions
  pub mask : String → String

-- The messages of the state service.
unfoldable pub error_text : StateError → String
unfolding status_name
error_text run_not_found = "Test run not found"
error_text (from_terminal status) =
    "Cannot transition terminal test run from " <> status_name status
error_text (invalid_transition from to) =
    "Invalid test run status transition: " <> status_name from <> " -> " <> status_name to
error_text active_lease = "Test run has an active execution lease"
error_text changed_concurrently = "Test run status changed concurrently"
error_text (not_a_phase phase) = status_name phase <> " is not an execution phase"
error_text record_not_found = "No record was found"
error_text (queue_failed message) = message

abbrev pub interruption_text : Interruption → String
interruption_text run_cancelled = "Test run was cancelled"
interruption_text (run_error message) = message

-- `if (!given) throw new Error(message)`
abbrev pub required : Bool → String → Result Interruption Unit
required true message = ok tt
required false message = err (run_error message)

abbrev pub found_run : Option TestRun → Result Interruption TestRun
found_run none = err (run_error "Test run not found")
found_run (some run) = ok run

abbrev pub is_cancelled_error : Interruption → Bool
is_cancelled_error run_cancelled = true
is_cancelled_error (run_error message) = false

abbrev pub status_in : Option TestRun → Option TestRunStatus
status_in none = none
status_in (some run) = some run.status

-- `if (usesDockerCompose) …`
abbrev pub when : Bool → Result Interruption Unit → Result Interruption Unit
when true x = x
when false x = ok tt

abbrev pub is_timeout_category : FailureCategory → Bool
is_timeout_category timeout = true
is_timeout_category _ = false

unfoldable pub told : {A : Type 0} → Result StateError A → Result Interruption A
unfolding error_text
told (ok a) = ok a
told (err e) = err (run_error (error_text e))

module _ {Db : Type 0} where
  -- `try { … } catch (error) { … }`: what the catch sees
  unfoldable pub attempt : {E F A : Type 0} → Act Db E A → Act Db F (Result E A)
  attempt m w = let (r, w') = m w in (ok r, w')

  -- `m.catch(() => undefined)`
  unfoldable pub silently : {E F A : Type 0} → Act Db E A → Act Db F Unit
  unfolding attempt
  silently m = do attempt m; pure tt

  -- A call of the state service, whose error is passed on.
  unfoldable pub call : {A : Type 0} → Act Db StateError A → Act Db Interruption A
  unfolding told
  call m w = let (r, w') = m w in (told r, w')
