-- ===== src/Runner/Loops.antt =====
-- The loops that wait: `sleep`, `executePoll`, `executeWait` and `executeRequest` of
-- runner/runner-orchestrator.service.ts. A loop that its fuel does not suffice for is stuck.
use Prim.Native.Nat.{◌/◌}
use testing_environment.Common.{
  ℕ, zero, suc, ◌+◌, ◌-◌, String, Bool, true, false, Option, none, some, [], leb, ltb, or_else,
  if◌then◌else◌,
}
use testing_environment.Common.Text.{◌<>◌, show}
use testing_environment.Common.Result.{ok}
use testing_environment.Suites.Flow.{number, object, field, done, RequestConfig}
use testing_environment.Diagnosis.{ResultStatus, step_passed, step_failed}
use testing_environment.Runner.{
  HttpResult, StepResult, Store, Interruption, interrupted, stuck, Outside, Exec, ◌>>=◌, ◌>>◌, pure,
  fail,
}
use testing_environment.Runner.Variables.{interpolate_request}
use testing_environment.Runner.Evaluation.{evaluate_request_result, at_once}

abbrev pub min : ℕ → ℕ → ℕ
min a b = if leb a b then a else b

-- `Math.round(ms / 1000)`
abbrev seconds : ℕ → ℕ
seconds ms = (ms + 500) / 1000

abbrev pub in_time : ℕ → StepResult → StepResult
in_time duration step = record step { http = record step.http { duration_ms = duration } }

abbrev pub has_step_passed : ResultStatus → Bool
has_step_passed step_passed = true
has_step_passed step_failed = false

module _ {W : Type 0} (O : Outside W) where
  unfoldable pub now : Exec W ℕ
  now w = (ok (O.clock w), w)

  unfoldable pub wait_for : ℕ → Exec W Unit
  wait_for ms w = (ok tt, O.pause ms w)

  abbrev pub stopped : Option Interruption × W → Exec W Unit
  stopped (none, w) _ = (ok tt, w)
  stopped (some i, w) _ = fail (interrupted i) w

  -- `ensureNotCancelled`
  unfoldable pub ensure_not_cancelled : Exec W Unit
  unfolding fail
  ensure_not_cancelled w = stopped (O.interruption w) w

  -- One turn takes a millisecond, or the deadline has come.
  unfoldable pub sleep_until : ℕ → ℕ → Exec W Unit
  unfolding now wait_for ensure_not_cancelled fail pure ◌>>=◌
  sleep_until zero deadline = fail stuck
  sleep_until (suc fuel) deadline = do
    at ← now
    if ltb at deadline
        then (do
          ensure_not_cancelled
          later ← now
          wait_for (min 250 (deadline - later))
          sleep_until fuel deadline)
        else pure tt

  unfoldable pub sleep : ℕ → Exec W Unit
  unfolding sleep_until now ◌>>=◌
  sleep duration = do at ← now; sleep_until (suc duration) (at + duration)

  unfoldable pub execute_wait : ℕ → Exec W StepResult
  unfolding sleep now pure show ◌>>=◌
  execute_wait duration = do
    started ← now
    sleep duration
    ended ← now
    pure (
        in_time (ended - started) (
          at_once step_passed (some (object (field "waitedMs" (number (show duration)) done))) none
            []))

  module _ (secrets : Store String) where
    -- `http.execute`, which interpolates the request once more
    unfoldable pub http_execute : RequestConfig → Store String → Exec W HttpResult
    unfolding interpolate_request
    http_execute request store w =
        let (r, w') = O.send (interpolate_request store secrets request) w in (ok r, w')

    unfoldable pub execute_request :
        RequestConfig → Store String → Exec W (StepResult × Store String)
    unfolding interpolate_request http_execute ensure_not_cancelled evaluate_request_result pure
        ◌>>=◌
    execute_request definition store =
        let request = interpolate_request store secrets definition in
        do
          result ← http_execute request store
          ensure_not_cancelled
          pure (evaluate_request_result result request store 1)

    module _ (definition : RequestConfig) (timeout interval started : ℕ)
        (message : Option String) where
      unfoldable pub timed_out : Option StepResult → ℕ → ℕ → StepResult
      unfolding show
      timed_out last attempts duration =
          let result = or_else last (at_once step_failed none none []) in
          record {
            http = record result.http {
              duration_ms = duration;
              error_message = some (
                  or_else message
                    ("Poll timed out after " <> show (seconds timeout) <> " seconds"));
            };
            status = step_failed;
            attempts = attempts;
            assertion_results = result.assertion_results;
          }

      -- A step that passes ends the poll, and otherwise there is a pause before the next turn.
      unfoldable pub conclude :
          StepResult × Store String
          → ℕ
          → Exec W (StepResult × Store String)
          → Exec W (StepResult × Store String)
      unfolding sleep pure ◌>>=◌
      conclude (step, store) ended again =
          if has_step_passed step.status
          then pure (in_time (ended - started) step, store)
          else (do sleep (min interval (timeout - (ended - started))); again)

      unfoldable pub poll :
          ℕ → ℕ → Option StepResult → Store String → Exec W (StepResult × Store String)
      unfolding now ensure_not_cancelled interpolate_request http_execute evaluate_request_result
          conclude timed_out pure fail ◌>>=◌
      poll zero attempts last store = fail stuck
      poll (suc fuel) attempts last store =
          let request = interpolate_request store secrets definition in
          do
            at ← now
            if leb (at - started) timeout
                then (do
                  ensure_not_cancelled
                  result ← http_execute request store
                  ensure_not_cancelled
                  ended ← now
                  let step = evaluate_request_result result request store (suc attempts)
                  conclude step ended (poll fuel (suc attempts) (some step.0) step.1))
                else pure (timed_out last attempts (at - started), store)

    unfoldable pub execute_poll :
        RequestConfig → ℕ → ℕ → Option String → Store String → Exec W (StepResult × Store String)
    unfolding now poll ◌>>=◌
    execute_poll definition timeout interval message store = do
      started ← now
      poll definition timeout interval started message (suc (suc timeout)) 0 none store
