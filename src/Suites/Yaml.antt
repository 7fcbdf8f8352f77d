-- ===== src/Suites/Yaml.antt =====
-- The import of a step from YAML: the step as the YAML library reads it, and `toExecutionStep` and what it calls in
-- test-suites/yaml-suite-adapter.service.ts. A key with the value `null` is not modelled.
pub mod Export
pub mod Cleaning
pub mod Configs
pub mod RoundTrip
mod Tests
use testing_environment.Common.{
  ℕ, ◌+◌, String, Bool, true, false, Option, none, some, List, [], ◌∷◌, if◌then◌else◌, or_else,
  str_eq, ltb, not,
}
use testing_environment.Common.Result.{Result, ok, err, ◌>>=◌, ◌>>◌}
use testing_environment.Common.Text.{trim, is_blank, is_blank_option, trimmed, show, ◌<>◌}
use testing_environment.Suites.Flow.{
  Json, Number, whole, not_finite, AssertionOperator, FlowAssertion, CompileError, wait_duration,
  interval_over_timeout, variable_name_required, field_path_required, method_required,
  path_required, unsupported_type, RequestConfig, StepConfig, api_request, wait, poll_until,
  set_variable, assert, ExecutionStep, RetryPolicy,
}
use testing_environment.Suites.Validation.{exceeds, is_positive, is_true, throw_if}
use testing_environment.Suites.Steps.{
  in_ms, clean_object, clean_texts, clean_value, not_empty, to_assertions,
}
use testing_environment.Suites.Compiler.{positive_number, non_negative_number}

pub record RawRetryPolicy : Type 0 where
  pub max_attempts : Option Number
  pub backoff_ms : Option Number

-- An assertion has the fields of one in a flow.
pub record RawExpect : Type 0 where
  pub status : Option ℕ
  pub json_contains : Option Json
  pub assertions : Option (List FlowAssertion)

pub record RawYamlRequest : Type 0 where
  pub method : Option String
  pub path : Option String
  pub headers : Option (List (String × String))
  pub query : Option (List (String × Json))
  pub json : Option Json
  pub expect : Option RawExpect
  pub save : Option (List (String × String))

pub record RawPoll : Type 0 where
  pub request : RawYamlRequest
  pub timeout_seconds : Option Number
  pub timeout_ms : Option Number
  pub interval_seconds : Option Number
  pub interval_ms : Option Number
  pub failure_message : Option String

pub record RawSetVariable : Type 0 where
  pub name : Option String
  pub value : Option String
  pub from_step_id : Option String
  pub path : Option String

pub record RawAssert : Type 0 where
  pub source_step_id : Option String
  pub field_path : Option String
  pub operator : AssertionOperator
  pub expected_value : Option String

-- A step with the keys that it has; a duration that is not a number is not finite.
pub record RawYamlStep : Type 0 where
  pub id : Option String
  pub type : Option String
  pub name : Option String
  pub timeout_ms : Option Number
  pub retry_policy : Option RawRetryPolicy
  pub continue_on_failure : Option Bool
  pub wait : Option Number
  pub poll : Option RawPoll
  pub set_variable : Option RawSetVariable
  pub assert : Option RawAssert
  pub request : Option RawYamlRequest

-- `step-${String(index + 1).padStart(3, '0')}`
unfoldable pub numbered : ℕ → String
unfolding show
numbered index =
    let n = index + 1 in
    "step-" <> (if ltb n 10 then "00" else if ltb n 100 then "0" else "") <> show n

-- `positiveNumber` of a number that may be missing
abbrev pub positive_or : Option Number → Number → Number
positive_or none fallback = fallback
positive_or (some n) fallback = positive_number n fallback

abbrev pub non_negative_or : Option Number → Number → Number
non_negative_or none fallback = fallback
non_negative_or (some n) fallback = non_negative_number n fallback

abbrev pub attempts_of : Option RawRetryPolicy → Option Number
attempts_of none = none
attempts_of (some p) = p.max_attempts

abbrev pub backoff_of : Option RawRetryPolicy → Option Number
backoff_of none = none
backoff_of (some p) = p.backoff_ms

abbrev pub to_retry_policy : Option RawRetryPolicy → RetryPolicy
to_retry_policy p = record {
  max_attempts = positive_or (attempts_of p) (whole 1);
  backoff_ms = non_negative_or (backoff_of p) (whole 0);
}

-- `a ?? (b === undefined ? undefined : b * 1000)`
abbrev pub ms_or_seconds : Option Number → Option Number → Option Number
ms_or_seconds (some ms) seconds = some ms
ms_or_seconds none none = none
ms_or_seconds none (some s) = some (in_ms s)

abbrev pub poll_timeout : RawPoll → Number
poll_timeout p = positive_or (ms_or_seconds p.timeout_ms p.timeout_seconds) (whole 30000)

abbrev pub poll_interval : RawPoll → Number
poll_interval p = positive_or (ms_or_seconds p.interval_ms p.interval_seconds) (whole 1000)

abbrev pub text_of : Option String → String
text_of s = or_else s ""

abbrev pub status_of : Option RawExpect → ℕ
status_of none = 200
status_of (some e) = or_else e.status 200

abbrev pub contained : Option RawExpect → Option Json
contained none = none
contained (some e) = e.json_contains

abbrev pub assertions_of : Option RawExpect → Option (List FlowAssertion)
assertions_of none = none
assertions_of (some e) = e.assertions

abbrev pub is_type : String → Option String → Bool
is_type name none = false
is_type name (some type) = str_eq name type

abbrev pub version_of : StepConfig → String
version_of (wait _) = "wait/v1"
version_of (poll_until _ _ _ _) = "pollUntil/v1"
version_of (set_variable _ _ _ _) = "setVariable/v1"
version_of (assert _ _ _ _) = "assert/v1"
version_of (api_request _) = "apiRequest/v1"

-- The timeout of a poll is its own.
abbrev pub timeout_of : StepConfig → Number → Number
timeout_of (poll_until _ timeout _ _) given = timeout
timeout_of _ given = given

-- `text?.trim() || fallback`
unfoldable pub trimmed_or : Option String → String → String
unfolding trim is_blank
trimmed_or s fallback = or_else (trimmed s) fallback

abbrev unsupported : Option String → Result CompileError StepConfig
unsupported type = err (unsupported_type (or_else type "unknown"))

module _ (upper : String → String) where
  unfoldable pub to_request_config : RawYamlRequest → String → Result CompileError RequestConfig
  unfolding clean_object clean_texts to_assertions trim is_blank
  to_request_config request name = do
    throw_if (is_blank_option request.method) (method_required name)
    throw_if (is_blank_option request.path) (path_required name)
    ok (record {
      method = upper (trim (text_of request.method));
      path = trim (text_of request.path);
      headers = clean_texts request.headers;
      query = clean_object request.query;
      json = clean_value request.json;
      expect = record {
        status = status_of request.expect;
        json_contains = clean_value (contained request.expect);
        assertions = to_assertions (assertions_of request.expect);
      };
      save = clean_texts request.save;
    })

  unfoldable pub to_wait : Number → String → Result CompileError StepConfig
  to_wait duration name = do
    throw_if (not (is_positive duration)) (wait_duration name)
    ok (wait duration)

  unfoldable pub to_poll : RawPoll → String → Result CompileError StepConfig
  unfolding to_request_config trim is_blank
  to_poll p name =
      let timeout = poll_timeout p in
      let interval = poll_interval p in
      do
        throw_if (exceeds interval timeout) (interval_over_timeout name)
        request ← to_request_config p.request name
        ok (poll_until request timeout interval (trimmed p.failure_message))

  unfoldable pub to_set_variable : RawSetVariable → String → Result CompileError StepConfig
  unfolding trim is_blank
  to_set_variable v name = do
    throw_if (is_blank_option v.name) (variable_name_required name)
    ok (set_variable (trim (text_of v.name)) v.value (trimmed v.from_step_id) (trimmed v.path))

  unfoldable pub to_assert : RawAssert → String → Result CompileError StepConfig
  unfolding trim is_blank
  to_assert a name = do
    throw_if (is_blank_option a.field_path) (field_path_required name)
    ok (
        assert (trimmed a.source_step_id) (trim (text_of a.field_path)) a.operator
          (not_empty a.expected_value))

  unfoldable pub to_request : RawYamlRequest → String → Result CompileError StepConfig
  unfolding to_request_config
  to_request r name = do config ← to_request_config r name; ok (api_request config)

  -- `'wait' in test` and so on, in turn
  unfoldable pub to_config : RawYamlStep → String → Result CompileError StepConfig
  unfolding to_wait to_poll to_set_variable to_assert to_request
  to_config test name = elim test.wait [
    | some duration ↦ to_wait duration name
    | none ↦ elim test.poll [
      | some p ↦ to_poll p name
      | none ↦ elim (if is_type "setVariable" test.type then test.set_variable else none) [
        | some v ↦ to_set_variable v name
        | none ↦ elim (if is_type "assert" test.type then test.assert else none) [
          | some a ↦ to_assert a name
          | none ↦ elim test.request [ some r ↦ to_request r name | none ↦ unsupported test.type ]
        ]
      ]
    ]
  ]

  unfoldable pub to_execution_step : RawYamlStep → ℕ → Result CompileError ExecutionStep
  unfolding to_config numbered trimmed_or
  to_execution_step test index =
      let id = trimmed_or test.id (numbered index) in
      let name = trimmed_or test.name id in
      do
        config ← to_config test name
        ok (record {
          id = id;
          name = name;
          version = version_of config;
          config = config;
          timeout_ms = timeout_of config (positive_or test.timeout_ms (whole 30000));
          retry_policy = to_retry_policy test.retry_policy;
          continue_on_failure = is_true test.continue_on_failure;
        })
