-- ===== src/Runner/Tests.antt =====
-- Executions against a server whose responses are listed, and the theorems about them.
use testing_environment.Common.{
  ℕ, ◌+◌, String, ◌≡◌, ◌↔◌, refl, inr, Bool, true, false, Option, none, some, List, [], ◌∷◌, map,
  arith, is_some, or_else, or_try,
}
use testing_environment.Common.Result.{Result, ok, err}
use testing_environment.Runs.Status.{executing_tests, starting_environment, waiting_for_healthcheck}
use testing_environment.Runs.Run.{container_start, timeout, network}
use testing_environment.Suites.Flow.{
  Json, null, number, text, object, done, field, equals, exists, RequestConfig, StepConfig,
  api_request, wait, poll_until, set_variable, assert, whole, ExecutionStep, ExecutionPlan,
}
use testing_environment.Diagnosis.{TestResult, step_passed, step_failed}
use testing_environment.Runner.{HttpResult, Store, get, Stop, Outside}
use testing_environment.Runner.Variables.{interpolate_text}
use testing_environment.Runner.Evaluation.{evaluate_request_result}
use testing_environment.Runner.Responses.{
  IsExpected, saved_value, evaluate_request_result_iff, get-evaluate_request_result,
}
use testing_environment.Runner.Messages.{error_message-evaluate_request_result}
use testing_environment.Runner.Loops.{execute_poll}
use testing_environment.Runner.Passing.{Passes, Ends}
use testing_environment.Runner.Endings.{IsPolled, execute_poll_lem}
use testing_environment.Runner.Execution.{
  Execution, Recording, execute_suites, failure_category_for,
}
use testing_environment.Runner.Records.{all_steps, IsRecord, execute_suites_lem}

abbrev response : ℕ → Json → HttpResult
response status body = record {
  actual_status = some status;
  response_body = some body;
  duration_ms = 10;
  error_message = none;
}

abbrev refused : HttpResult
refused = record {
  actual_status = none;
  response_body = none;
  duration_ms = 10;
  error_message = some "fetch failed";
}

-- The time, and the responses that are to come.
pub record Server : Type 0 where
  pub time : ℕ
  pub script : List HttpResult

abbrev answer : List HttpResult → HttpResult × List HttpResult
answer [] = (refused, [])
answer (r ∷ rest) = (r, rest)

abbrev server : Outside Server
server = record {
  send = λ request s.
      ((answer s.script).0, record { time = s.time + 10; script = (answer s.script).1 });
  clock = λ s. s.time;
  interruption = λ s. (none, s);
  pause = λ n s. record s { time = s.time + n };
}

server_passes : Passes server
server_passes = record {
  send_lem = λ r s. omega arith;
  interruption_lem = λ s. omega arith;
  pause_lem = λ n s. omega arith;
}

abbrev request : RequestConfig
request = record {
  method = "get";
  path = "/users/{{ id }}";
  headers = none;
  query = none;
  json = none;
  expect = record {
    status = 200;
    json_contains = some (object (field "name" (text "Ann") done));
    assertions =
        some (record { field_path = "$.id"; operator = equals; expected_value = some "7" } ∷ []);
  };
  save = some (("user", "$.id") ∷ []);
}

abbrev user : Json
user = object (field "id" (number "7") (field "name" (text "Ann") done))

abbrev step : String → StepConfig → ExecutionStep
step id config = record {
  id = id;
  name = id;
  version = "v1";
  config = config;
  timeout_ms = whole 1000;
  retry_policy = record { max_attempts = whole 1; backoff_ms = whole 0 };
  continue_on_failure = false;
}

abbrev plan : ExecutionPlan
plan = record {
  suite_revision_id = "r1";
  suite_name = "Users";
  steps =
      step "id" (set_variable "id" (some "7") none none)
      ∷ step "poll" (poll_until request (whole 50) (whole 20) none)
      ∷ step "pause" (wait (whole 5))
      ∷ step "gone" (api_request request)
      ∷ step "check" (assert (some "poll") "$.name" exists none)
      ∷ [];
  dependencies = [];
  variables = [];
  timeout_ms = whole 1000;
}

abbrev recording : Recording
recording = record { new_id = λ n. "result"; upper = λ s. s; mask = λ s. s; stored = λ r. none }

abbrev busy : Server
busy = record { time = 100; script = refused ∷ response 200 user ∷ response 404 null ∷ [] }

-- The statuses of the results, and the variables.
abbrev outcome : Result Stop Execution × Server → Option (List (String × Bool) × Store String × ℕ)
outcome (ok e, s) = some (
  map (λ (r : TestResult). (or_else r.step_id "", is_some r.error_message)) e.results,
  e.variables,
  s.time,
)
outcome (err x, s) = none

computed : Unit {0}
unfolding execute_suites evaluate_request_result interpolate_text failure_category_for saved_value
computed = tt

runs :
    outcome (execute_suites server [] recording (plan ∷ []) busy)
    ≡ some (
      ("id", false) ∷ ("poll", false) ∷ ("pause", false) ∷ ("gone", true) ∷ ("check", false) ∷ [],
      ("id", "7") ∷ ("user", "7") ∷ [],
      155,
    )
unfolding computed
runs = refl

texts :
    (interpolate_text
        (("id", "7") ∷ [])
        (("key", "s") ∷ [])
        "/u/{{ id }}?k={{secret.key}}&x={{ none }}{"
      ≡ "/u/7?k=s&x={")
    × (failure_category_for (some starting_environment) "exited" ≡ container_start)
    × (failure_category_for (some waiting_for_healthcheck) "Timed out" ≡ timeout)
    × (failure_category_for (some executing_tests) "getaddrinfo ENOTFOUND" ≡ network)
unfolding computed
texts = (refl, refl, refl, refl)

evaluate_request_result_iff_example :
    ((evaluate_request_result (response 200 user) request [] 1).0.status ≡ step_passed)
    ↔ IsExpected (response 200 user) request
evaluate_request_result_iff_example = evaluate_request_result_iff (response 200 user) request [] 1

get-evaluate_request_result_example :
    ((evaluate_request_result (response 200 user) request [] 1).0.status ≡ step_passed
      → get "user" (evaluate_request_result (response 200 user) request [] 1).1
        ≡ or_try (saved_value "user" (some user) (("user", "$.id") ∷ [])) (get "user" []))
    × ((evaluate_request_result (response 200 user) request [] 1).0.status ≡ step_failed
        → (evaluate_request_result (response 200 user) request [] 1).1 ≡ [])
get-evaluate_request_result_example =
    get-evaluate_request_result (response 200 user) request [] 1 "user"

gone_fails : (evaluate_request_result (response 404 null) request [] 1).0.status ≡ step_failed
unfolding computed
gone_fails = refl

error_message-evaluate_request_result_example :
    is_some (evaluate_request_result (response 404 null) request [] 1).0.http.error_message ≡ true
error_message-evaluate_request_result_example =
    error_message-evaluate_request_result (response 404 null) request [] 1 (inr refl) gone_fails

execute_poll_lem_example :
    Ends
      (IsPolled server server_passes [] request busy 100 50)
      (execute_poll server [] request 50 20 none [] busy)
execute_poll_lem_example = execute_poll_lem server server_passes [] request 50 20 none [] busy

execute_suites_lem_example :
    Ends
      (λ e _.
        IsRecord (all_steps (plan ∷ [])) e
        × (e.stats.passed_tests + e.stats.failed_tests ≡ e.stats.total_tests))
      (execute_suites server [] recording (plan ∷ []) busy)
execute_suites_lem_example = execute_suites_lem server server_passes [] recording (plan ∷ []) busy
