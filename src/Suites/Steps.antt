-- ===== src/Suites/Steps.antt =====
-- How a step of a flow becomes a step of the plan: `toExecutionStep`, `toRequestConfig`, `toAssertions` and
-- `cleanObject` of test-suites/execution-plan-compiler.service.ts. `toUpperCase` is a parameter.
use testing_environment.Common.{
  ◌*◌, ◌+◌, String, Bool, true, false, Option, none, some, List, [], ◌∷◌, if◌then◌else◌, or_else,
  str_eq,
}
use testing_environment.Common.Text.{trim, is_blank, trimmed}
use testing_environment.Suites.Flow.{
  Json, text, array, end, Number, whole, below_zero, not_finite, FlowAssertion, RequestNode,
  NodeType, FlowNode, ExecutionAssertion, RequestConfig, StepConfig, ExecutionStep,
}
use testing_environment.Suites.Validation.{version_of_type, default_retry_policy, is_true}

-- `x * 1000`
abbrev pub in_ms : Number → Number
in_ms (whole n) = whole (n * 1000)
in_ms (below_zero n) = below_zero (n * 1000 + 999)
in_ms not_finite = not_finite

-- A value that `cleanObject` leaves out.
abbrev pub is_dropped : Json → Bool
is_dropped (text s) = str_eq s ""
is_dropped (array end) = true
is_dropped _ = false

abbrev pub some_if_any : {A : Type 0} → List A → Option (List A)
some_if_any [] = none
some_if_any (x ∷ xs) = some (x ∷ xs)

abbrev pub filled : List (String × Json) → List (String × Json)
filled [] = []
filled ((k, v) ∷ es) = if is_dropped v then filled es else (k, v) ∷ filled es

abbrev pub filled_texts : List (String × String) → List (String × String)
filled_texts [] = []
filled_texts ((k, v) ∷ es) = if str_eq v "" then filled_texts es else (k, v) ∷ filled_texts es

unfoldable pub clean_object : Option (List (String × Json)) → Option (List (String × Json))
clean_object none = none
clean_object (some es) = some_if_any (filled es)

unfoldable pub clean_texts : Option (List (String × String)) → Option (List (String × String))
clean_texts none = none
clean_texts (some es) = some_if_any (filled_texts es)

abbrev pub clean_value : Option Json → Option Json
clean_value none = none
clean_value (some v) = if is_dropped v then none else some v

-- `x !== undefined && x !== '' ? x : undefined`
abbrev pub not_empty : Option String → Option String
not_empty none = none
not_empty (some s) = if str_eq s "" then none else some s

abbrev pub to_assertion : FlowAssertion → Option ExecutionAssertion
to_assertion a = elim a.field_path [
  | none ↦ none
  | some path ↦ elim a.operator [
    | none ↦ none
    | some operator ↦
        if is_blank path
        then none
        else some (record {
          field_path = trim path;
          operator = operator;
          expected_value = not_empty a.expected_value;
        })
  ]
]

abbrev pub add_option : {A : Type 0} → Option A → List A → List A
add_option none xs = xs
add_option (some x) xs = x ∷ xs

unfoldable pub assertion_entries : List FlowAssertion → List ExecutionAssertion
unfolding is_blank trim
assertion_entries [] = []
assertion_entries (a ∷ rest) = add_option (to_assertion a) (assertion_entries rest)

unfoldable pub to_assertions : Option (List FlowAssertion) → Option (List ExecutionAssertion)
unfolding assertion_entries
to_assertions as_written = some_if_any (assertion_entries (or_else as_written []))

-- `node.timeoutMs ?? DEFAULT_STEP_TIMEOUT_MS`; the timeout of a poll is its own.
abbrev pub step_timeout_ms : Option Number → NodeType → Number
step_timeout_ms timeout (NodeType.poll_until node) = in_ms node.timeout_seconds
step_timeout_ms timeout _ = or_else timeout (whole 30000)

module _ (upper : String → String) where
  unfoldable pub to_request_config : RequestNode → RequestConfig
  unfolding clean_object clean_texts to_assertions trim
  to_request_config node = record {
    method = upper (trim node.method);
    path = trim node.path;
    headers = clean_texts node.headers;
    query = clean_object node.query;
    json = clean_value node.json_body;
    expect = record {
      status = or_else node.expect_status 200;
      json_contains = clean_value node.json_contains;
      assertions = to_assertions node.assertions;
    };
    save = clean_texts node.save;
  }

  unfoldable pub to_step_config : NodeType → StepConfig
  unfolding to_request_config trim is_blank
  to_step_config (NodeType.wait duration) = StepConfig.wait duration
  to_step_config (NodeType.poll_until node) =
      StepConfig.poll_until (to_request_config node.request) (in_ms node.timeout_seconds)
        (in_ms node.interval_seconds) (trimmed node.failure_message)
  to_step_config (NodeType.set_variable node) =
      StepConfig.set_variable (trim node.variable_name) node.value (trimmed node.from_step_id)
        (trimmed node.path)
  to_step_config (NodeType.assert node) =
      StepConfig.assert (trimmed node.source_step_id) (trim node.field_path) node.operator
        (not_empty node.expected_value)
  to_step_config (NodeType.api_request node) = StepConfig.api_request (to_request_config node)
  -- not reached: the validation refuses such a step
  to_step_config (NodeType.unsupported name) = StepConfig.wait not_finite

  unfoldable pub to_execution_step : FlowNode → ExecutionStep
  unfolding to_step_config trim
  to_execution_step node = record {
    id = node.id;
    name = trim node.name;
    version = or_else node.version (version_of_type node.type);
    config = to_step_config node.type;
    timeout_ms = step_timeout_ms node.timeout_ms node.type;
    retry_policy = or_else node.retry_policy default_retry_policy;
    continue_on_failure = is_true node.continue_on_failure;
  }
