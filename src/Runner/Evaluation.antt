-- ===== src/Runner/Evaluation.antt =====
-- The evaluation of a response (`evaluateRequestResult`, `executeAssert` and `executeSetVariable` of
-- runner/runner-orchestrator.service.ts).
use testing_environment.Common.{
  ℕ, String, Bool, true, false, not, ◌&&◌, Option, none, some, List, [], ◌∷◌, ◌++◌, map, ◌==◌,
  or_else, or_try, is_some, if◌then◌else◌,
}
use testing_environment.Common.Text.{◌<>◌, show}
use testing_environment.Suites.Flow.{
  Json, number, text, object, field, done, AssertionOperator, equals, contains, exists,
  ExecutionAssertion, RequestConfig,
}
use testing_environment.Assertions.{
  YamlAssertion, YamlAssertionOperator, Failure, missing_field, not_equal, not_containing,
  unsupported_operator, DetailedEvaluation, evaluate_all_assertions, first_failure, read_json_path,
  contains_part, contains as holds_in,
}
use testing_environment.Diagnosis.{ResultStatus, step_passed, step_failed}
use testing_environment.Diagnosis.Evidence.{StoredAssertion, truthy}
use testing_environment.Diagnosis.Infrastructure.{is_given}
use testing_environment.Runner.{HttpResult, StepResult, Store, get, set}

abbrev operator_of : AssertionOperator → YamlAssertionOperator
operator_of equals = YamlAssertionOperator.equals
operator_of contains = contains_part
operator_of exists = YamlAssertionOperator.exists

abbrev pub yaml_assertion : ExecutionAssertion → YamlAssertion
yaml_assertion a = record {
  field_path = a.field_path;
  operator = operator_of a.operator;
  expected_value = a.expected_value;
}

abbrev missing : YamlAssertion → DetailedEvaluation
missing a = record { assertion = a; actual = none; failure = some (missing_field a.field_path) }

-- `evaluateAllAssertions` of a body that may be `undefined`, which has no fields.
unfoldable pub evaluate_body : Option Json → List YamlAssertion → List DetailedEvaluation
unfolding evaluate_all_assertions
evaluate_body none assertions = map missing assertions
evaluate_body (some body) assertions = evaluate_all_assertions body assertions

-- The message of a failed assertion.
abbrev pub failure_text : Failure → String
failure_text (missing_field path) = "Response field " <> path <> " does not exist"
failure_text (not_equal path expected actual) =
    "Expected " <> path <> " to equal \"" <> expected <> "\", got \"" <> actual <> "\""
failure_text (not_containing path expected actual) =
    "Expected " <> path <> " to contain \"" <> expected <> "\", got \"" <> actual <> "\""
failure_text (unsupported_operator name) = "Unsupported assertion operator \"" <> name <> "\""

abbrev pub text_of_failure : Option Failure → Option String
text_of_failure none = none
text_of_failure (some f) = some (failure_text f)

abbrev operator_text : YamlAssertionOperator → String
operator_text YamlAssertionOperator.equals = "equals"
operator_text contains_part = "contains"
operator_text YamlAssertionOperator.exists = "exists"
operator_text (YamlAssertionOperator.other name) = name

abbrev optional_text : Option String → Option Json
optional_text none = none
optional_text (some s) = some (text s)

abbrev optional_number : Option ℕ → Option Json
optional_number none = none
optional_number (some n) = some (number (show n))

-- `toStoredAssertion`
abbrev pub to_stored_assertion : DetailedEvaluation → StoredAssertion
to_stored_assertion d = record {
  field_path = d.assertion.field_path;
  operator = operator_text d.assertion.operator;
  expected = optional_text d.assertion.expected_value;
  actual = d.actual;
  passed = not (is_some d.failure);
  message = text_of_failure d.failure;
}

-- `contains` with an expected value that may be `undefined`
unfoldable pub body_matches : Option Json → Option Json → Bool
unfolding holds_in
body_matches body none = true
body_matches body (some expected) = holds_in body expected

abbrev pub is_status : Option ℕ → ℕ → Bool
is_status none expected = false
is_status (some actual) expected = actual == expected

unfoldable status_text : Option ℕ → String
unfolding show
status_text none = "undefined"
status_text (some n) = show n

unfoldable pub status_assertion : HttpResult → ℕ → StoredAssertion
unfolding show status_text
status_assertion result expected =
    let matches = is_status result.actual_status expected in
    record {
      field_path = "$.status";
      operator = "equals";
      expected = some (number (show expected));
      actual = optional_number result.actual_status;
      passed = matches;
      message =
          if matches
          then none
          else some
              ("Expected status " <> show expected <> ", got " <> status_text result.actual_status);
    }

-- A body that is expected to be false, zero or empty is compared, but has no assertion.
unfoldable pub body_assertion : HttpResult → Option Json → List StoredAssertion
unfolding body_matches
body_assertion result expected =
    let matches = body_matches result.response_body expected in
    let assertion : StoredAssertion = record {
      field_path = "$.body";
      operator = "contains";
      expected = expected;
      actual = result.response_body;
      passed = matches;
      message = if matches then none else some "Response body does not contain expected JSON";
    } in
    if truthy expected then assertion ∷ [] else []

abbrev pub message_of : List StoredAssertion → Option String
message_of [] = none
message_of (a ∷ _) = a.message

-- `readJsonPath` of a body that may be `undefined`
unfoldable pub read_path : Option Json → String → Option String
unfolding read_json_path
read_path none path = none
read_path (some body) path = read_json_path body path

unfoldable pub put_value : String → Option String → Store String → Store String
unfolding set
put_value key none store = store
put_value key (some value) store = set key value store

-- `for (const [key, path] of Object.entries(request.save))`
unfoldable pub save_variables : Option Json → List (String × String) → Store String → Store String
unfolding read_path put_value
save_variables body [] store = store
save_variables body ((key, path) ∷ rest) store =
    save_variables body rest (put_value key (read_path body path) store)

abbrev pub assertions_on : RequestConfig → List YamlAssertion
assertions_on request = map yaml_assertion (or_else request.expect.assertions [])

-- `passed`
unfoldable pub has_passed : HttpResult → RequestConfig → Bool
unfolding body_matches evaluate_body
has_passed result request =
    not (is_given result.error_message)
    && is_status result.actual_status request.expect.status
    && body_matches result.response_body request.expect.json_contains
    && not (is_some (first_failure (evaluate_body result.response_body (assertions_on request))))

unfoldable pub step_result : HttpResult → RequestConfig → ℕ → StepResult
unfolding status_assertion body_assertion evaluate_body has_passed
step_result result request attempts =
    let status = status_assertion result request.expect.status in
    let body = body_assertion result request.expect.json_contains in
    let evaluations = evaluate_body result.response_body (assertions_on request) in
    record {
      http = record result {
        error_message = or_try result.error_message (
            or_try status.message
              (or_try (message_of body) (text_of_failure (first_failure evaluations))));
      };
      status = if has_passed result request then step_passed else step_failed;
      attempts = attempts;
      assertion_results = status ∷ (body ++ map to_stored_assertion evaluations);
    }

-- The result, and the variables after it.
unfoldable pub evaluate_request_result :
    HttpResult → RequestConfig → Store String → ℕ → StepResult × Store String
unfolding has_passed step_result save_variables
evaluate_request_result result request store attempts = (
  step_result result request attempts,
  if has_passed result request
      then save_variables result.response_body (or_else request.save []) store
      else store,
)

abbrev pub at_once : ResultStatus → Option Json → Option String → List StoredAssertion → StepResult
at_once status body message assertions = record {
  http = record {
    actual_status = none;
    response_body = body;
    duration_ms = 0;
    error_message = message;
  };
  status = status;
  attempts = 1;
  assertion_results = assertions;
}

-- The step and the path that the configuration may name are not looked at.
unfoldable pub execute_set_variable :
    String → Option String → Store String → StepResult × Store String
unfolding set
execute_set_variable name value store =
    let given = or_else value "" in
    (
      at_once step_passed
          (some (object (field "name" (text name) (field "value" (text given) done)))) none [],
      set name given store,
    )

abbrev last_value : Store Json → Option Json
last_value [] = none
last_value (e ∷ []) = some e.1
last_value (e ∷ f ∷ rest) = last_value (f ∷ rest)

unfoldable pub resolve_assert_payload : Option String → Store Json → Option Json
unfolding get
resolve_assert_payload source responses =
    if is_given source then get (or_else source "") responses else last_value responses

unfoldable pub execute_assert :
    Option String → String → AssertionOperator → Option String → Store Json → StepResult
unfolding resolve_assert_payload evaluate_body
execute_assert source path op expected responses =
    let payload = resolve_assert_payload source responses in
    let assertion : ExecutionAssertion = record {
      field_path = path;
      operator = op;
      expected_value = expected;
    } in
    let evaluations = evaluate_body payload (yaml_assertion assertion ∷ []) in
    let failure = first_failure evaluations in
    at_once (if is_some failure then step_failed else step_passed) payload (text_of_failure failure)
      (map to_stored_assertion evaluations)
