-- ===== src/Runner/Execution.antt =====
-- The execution of the steps of the suites (`executeStep`, `getStepMeta`, `executeSuites` and
-- `failureCategoryFor` of runner/runner-orchestrator.service.ts). A plan is one that the compiler makes, so it has no
-- step of type `sequence`, and its times are whole numbers of milliseconds.
use testing_environment.Common.{
  ℕ, ◌+◌, String, Bool, false, ◌||◌, Option, none, some, List, [], ◌∷◌, ◌++◌, if◌then◌else◌, str_eq,
}
use testing_environment.Common.Regex.{word, ◌/◌, occurs}
use testing_environment.Runs.Status.{
  TestRunStatus, validating_environment, pulling_images, starting_environment,
  waiting_for_healthcheck, same_status,
}
use testing_environment.Runs.Run.{
  Stats, FailureCategory, environment_validation, image_pull, container_start, timeout, healthcheck,
  network, internal,
}
use testing_environment.Suites.Flow.{
  Json, Number, whole, below_zero, not_finite, StepConfig, api_request, wait, poll_until,
  set_variable, assert, ExecutionStep, ExecutionPlan,
}
use testing_environment.Diagnosis.{TestResult, ResultStatus}
use testing_environment.Runner.{StepResult, Store, set, Outside, Exec, ◌>>=◌, ◌>>◌, pure}
use testing_environment.Runner.Evaluation.{execute_set_variable, execute_assert}
use testing_environment.Runner.Loops.{
  ensure_not_cancelled, execute_request, execute_poll, execute_wait, has_step_passed,
}

abbrev pub ms_of : Number → ℕ
ms_of (whole n) = n
ms_of (below_zero n) = 0
ms_of not_finite = 0

-- What `getStepMeta` says of a step, and `toUpperCase` of a method.
pub record StepMeta : Type 0 where
  pub step_type : String
  pub method : String
  pub path : String
  pub expected_status : ℕ

abbrev meta_of : String → String → String → ℕ → StepMeta
meta_of step_type method path expected_status = record {
  step_type = step_type;
  method = method;
  path = path;
  expected_status = expected_status;
}

unfoldable pub get_step_meta : (String → String) → StepConfig → StepMeta
get_step_meta upper (wait duration) = meta_of "wait" "WAIT" "delay" 0
get_step_meta upper (poll_until request limit interval message) =
    meta_of "pollUntil" (upper request.method) request.path request.expect.status
get_step_meta upper (set_variable name value source path) = meta_of "setVariable" "SET" name 0
get_step_meta upper (assert source path op expected) = meta_of "assert" "ASSERT" path 0
get_step_meta upper (api_request request) =
    meta_of "apiRequest" (upper request.method) request.path request.expect.status

-- The variables, the responses by the step, the results that have been written, and the counts.
pub record Execution : Type 0 where
  pub variables : Store String
  pub responses : Store Json
  pub results : List TestResult
  pub stats : Stats

abbrev pub no_stats : Stats
no_stats = record { total_tests = 0; passed_tests = 0; failed_tests = 0 }

abbrev pub nothing_yet : Execution
nothing_yet = record { variables = []; responses = []; results = []; stats = no_stats }

-- `responseStore.set(test.id, result.responseBody)`, unless it is `undefined`
abbrev noted : String → Option Json → Store Json → Store Json
noted id none responses = responses
noted id (some body) responses = set id body responses

-- The counts after a step.
unfoldable pub counted : ResultStatus → Stats → Stats
counted status stats = record {
  total_tests = stats.total_tests + 1;
  passed_tests = stats.passed_tests + (if has_step_passed status then 1 else 0);
  failed_tests = stats.failed_tests + (if has_step_passed status then 0 else 1);
}

-- What the runner has beside the steps: the id of a new row, `toUpperCase`, how secrets are masked in a text, and
-- how the assertions are stored.
pub record Recording : Type 0 where
  pub new_id : ℕ → String
  pub upper : String → String
  pub mask : String → String
  pub stored : StepResult → Option Json

-- `message ? mask(message) : undefined`, where the empty text counts as none
abbrev masked : (String → String) → Option String → Option String
masked mask none = none
masked mask (some message) = if str_eq message "" then none else some (mask message)

-- The row of `testResult.create`.
unfoldable pub test_result_of : Recording → String → ExecutionStep → ℕ → StepResult → TestResult
unfolding get_step_meta
test_result_of R suite step count result =
    let meta = get_step_meta R.upper step.config in
    record {
      id = R.new_id count;
      step_id = some step.id;
      step_type = meta.step_type;
      suite_name = suite;
      test_name = step.name;
      status = result.status;
      method = meta.method;
      path = meta.path;
      expected_status = meta.expected_status;
      actual_status = result.http.actual_status;
      duration_ms = result.http.duration_ms;
      error_message = masked R.mask result.http.error_message;
      assertion_results = R.stored result;
    }

-- What is kept of a step and its result.
unfoldable pub recorded :
    Recording → String → ExecutionStep → Execution → StepResult × Store String → Execution
unfolding set counted test_result_of
recorded R suite step e (result, variables) = record {
  variables = variables;
  responses = noted step.id result.http.response_body e.responses;
  results = e.results ++ test_result_of R suite step e.stats.total_tests result ∷ [];
  stats = counted result.status e.stats;
}

module _ {W : Type 0} (O : Outside W) (secrets : Store String) (R : Recording) where
  unfoldable pub execute_step : StepConfig → Execution → Exec W (StepResult × Store String)
  unfolding execute_wait execute_poll execute_request execute_set_variable execute_assert pure ◌>>=◌
  execute_step (wait duration) e = do
    result ← execute_wait O (ms_of duration)
    pure (result, e.variables)
  execute_step (poll_until request limit interval message) e =
      execute_poll O secrets request (ms_of limit) (ms_of interval) message e.variables
  execute_step (set_variable name value source path) e =
      pure (execute_set_variable name value e.variables)
  execute_step (assert source path op expected) e =
      pure (execute_assert source path op expected e.responses, e.variables)
  execute_step (api_request request) e = execute_request O secrets request e.variables

  unfoldable pub execute_steps : String → List ExecutionStep → Execution → Exec W Execution
  unfolding execute_step ensure_not_cancelled recorded pure ◌>>=◌
  execute_steps suite [] e = pure e
  execute_steps suite (step ∷ rest) e = do
    ensure_not_cancelled O
    result ← execute_step step.config e
    execute_steps suite rest (recorded R suite step e result)

  unfoldable pub execute_plans : List ExecutionPlan → Execution → Exec W Execution
  unfolding execute_steps pure ◌>>=◌
  execute_plans [] e = pure e
  execute_plans (plan ∷ rest) e = do
    e' ← execute_steps plan.suite_name plan.steps e
    execute_plans rest e'

  unfoldable pub execute_suites : List ExecutionPlan → Exec W Execution
  unfolding execute_plans
  execute_suites plans = execute_plans plans nothing_yet

unfoldable pub is_in : TestRunStatus → Option TestRunStatus → Bool
unfolding same_status
is_in status none = false
is_in status (some current) = same_status current status

-- `failureCategoryFor`, of the status that the run has in the database
unfoldable pub failure_category_for : Option TestRunStatus → String → FailureCategory
unfolding is_in occurs
failure_category_for current message =
    if is_in validating_environment current
    then environment_validation
    else if is_in pulling_images current || occurs (word "pull" / word "image") message
    then image_pull
    else if is_in starting_environment current
    then container_start
    else if is_in waiting_for_healthcheck current
    then (if occurs (word "timeout" / word "timed out") message then timeout else healthcheck)
    else if occurs (word "network" / word "ECONN" / word "ENOTFOUND" / word "EAI_AGAIN") message
    then network
    else internal
