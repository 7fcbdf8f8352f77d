-- ===== src/Suites/Yaml/Export.antt =====
-- The export of a step to YAML: `toYamlStep`, `toYamlRequest` and `toRawRetryPolicy` of
-- test-suites/yaml-suite-adapter.service.ts. A plan has no step of type `sequence` here, and the order of the keys is
-- not modelled.
use testing_environment.Common.{
  ℕ, String, Bool, true, false, ◌&&◌, Option, none, some, List, map, if◌then◌else◌, ◌==◌,
}
use testing_environment.Suites.Flow.{
  Number, whole, FlowAssertion, RequestConfig, ExecutionAssertion, StepConfig, api_request, wait,
  poll_until, set_variable, assert, ExecutionStep, RetryPolicy,
}
use testing_environment.Suites.Steps.{
  clean_object, clean_texts, clean_value, not_empty, some_if_any,
}
use testing_environment.Suites.Yaml.{
  RawRetryPolicy, RawYamlRequest, RawYamlStep, RawPoll, RawSetVariable, RawAssert,
}

abbrev pub is_number : ℕ → Number → Bool
is_number n (whole m) = m == n
is_number n _ = false

unfoldable pub to_raw_retry_policy : RetryPolicy → Option RawRetryPolicy
to_raw_retry_policy p =
    if is_number 1 p.max_attempts && is_number 0 p.backoff_ms
    then none
    else some (record { max_attempts = some p.max_attempts; backoff_ms = some p.backoff_ms })

unfoldable pub to_raw_assertion : ExecutionAssertion → FlowAssertion
to_raw_assertion a = record {
  field_path = not_empty (some a.field_path);
  operator = some a.operator;
  expected_value = not_empty a.expected_value;
}

unfoldable pub raw_assertions : Option (List ExecutionAssertion) → Option (List FlowAssertion)
unfolding to_raw_assertion
raw_assertions none = none
raw_assertions (some as_given) = some_if_any (map to_raw_assertion as_given)

unfoldable pub to_yaml_request : RequestConfig → RawYamlRequest
unfolding clean_object clean_texts raw_assertions
to_yaml_request r = record {
  method = not_empty (some r.method);
  path = not_empty (some r.path);
  headers = clean_texts r.headers;
  query = clean_object r.query;
  json = clean_value r.json;
  expect = some (record {
    status = some r.expect.status;
    json_contains = clean_value r.expect.json_contains;
    assertions = raw_assertions r.expect.assertions;
  });
  save = clean_texts r.save;
}

abbrev type_of : StepConfig → String
type_of (wait _) = "wait"
type_of (poll_until _ _ _ _) = "pollUntil"
type_of (set_variable _ _ _ _) = "setVariable"
type_of (assert _ _ _ _) = "assert"
type_of (api_request _) = "apiRequest"

abbrev wait_of : StepConfig → Option Number
wait_of (wait duration) = some duration
wait_of _ = none

unfoldable poll_of : StepConfig → Option RawPoll
unfolding to_yaml_request
poll_of (poll_until request timeout interval message) = some (record {
  request = to_yaml_request request;
  timeout_seconds = none;
  timeout_ms = some timeout;
  interval_seconds = none;
  interval_ms = some interval;
  failure_message = message;
})
poll_of _ = none

abbrev set_variable_of : StepConfig → Option RawSetVariable
set_variable_of (set_variable name value source path) =
    some (record { name = some name; value = value; from_step_id = source; path = path })
set_variable_of _ = none

abbrev assert_of : StepConfig → Option RawAssert
assert_of (assert source path operator expected) = some (record {
  source_step_id = source;
  field_path = some path;
  operator = operator;
  expected_value = expected;
})
assert_of _ = none

unfoldable request_of : StepConfig → Option RawYamlRequest
unfolding to_yaml_request
request_of (api_request request) = some (to_yaml_request request)
request_of _ = none

-- The key that a step of each type has.
unfoldable pub with_config : RawYamlStep → StepConfig → RawYamlStep
unfolding poll_of request_of
with_config base config = record base {
  type = some (type_of config);
  wait = wait_of config;
  poll = poll_of config;
  set_variable = set_variable_of config;
  assert = assert_of config;
  request = request_of config;
}

-- What all steps have.
unfoldable pub base_of : ExecutionStep → RawYamlStep
unfolding to_raw_retry_policy
base_of step = record {
  id = not_empty (some step.id);
  type = none;
  name = not_empty (some step.name);
  timeout_ms = some step.timeout_ms;
  retry_policy = to_raw_retry_policy step.retry_policy;
  continue_on_failure = if step.continue_on_failure then some true else none;
  wait = none;
  poll = none;
  set_variable = none;
  assert = none;
  request = none;
}

unfoldable pub to_yaml_step : ExecutionStep → RawYamlStep
unfolding base_of with_config
to_yaml_step step = with_config (base_of step) step.config
