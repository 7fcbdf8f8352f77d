-- ===== src/Diagnosis/Steps.antt =====
-- The diagnoses of a step of a test that failed
-- (test-runs/failure-diagnosis/failure-diagnosis.engine.ts).
use testing_environment.Common.{
  ℕ, String, Bool, true, false, not, ◌&&◌, ◌||◌, Option, none, some, List, [], ◌∷◌, ◌==◌, or_else,
  or_try, if◌then◌else◌, str_eq,
}
use testing_environment.Common.Text.{◌<>◌, show, includes_part}
use testing_environment.Common.Regex.{occurs}
use testing_environment.Diagnosis.{
  TestResult, http_timeout, unexpected_status, assertion_mismatch, variable_extraction_failed,
  DiagnosisEvidence, test_result, to_test_result, high, medium, RunDiagnosis,
}
use testing_environment.Diagnosis.Patterns.{timeout_pattern, variable_extraction_pattern}
use testing_environment.Diagnosis.Context.{Context, sanitize_detail}
use testing_environment.Diagnosis.Stringify.{stringified, json_text}
use testing_environment.Diagnosis.Evidence.{
  StoredAssertion, read_assertions, failed_assertion, has_failed_json_assertion,
  test_result_evidence,
}

-- `${result.suiteName} / ${result.testName}: ${message}`
abbrev step_summary : TestResult → String → String
step_summary result message = result.suite_name <> " / " <> result.test_name <> ": " <> message

unfoldable status_or : Option ℕ → String → String
unfolding show
status_or none other = other
status_or (some n) other = show n

abbrev about_result : TestResult → String → String → DiagnosisEvidence
about_result result label detail = record {
  type = test_result;
  label = label;
  detail = detail;
  ref = to_test_result result.id;
}

unfoldable pub diagnose_http_timeout : TestResult → RunDiagnosis
unfolding sanitize_detail test_result_evidence
diagnose_http_timeout result =
    let message = sanitize_detail (or_else result.error_message "HTTP request timed out") in
    let request = result.method <> " " <> result.path in
    record {
      category = http_timeout;
      title = "HTTP request timed out";
      summary = step_summary result message;
      primary_evidence =
          test_result_evidence "Failed step" result message
          ∷ about_result result "Request" request
          ∷ [];
      related_evidence = [];
      suggested_actions =
          record {
            id = "increase-request-timeout";
            label = "Increase request timeout";
            description = "Check RUNNER_REQUEST_TIMEOUT_MS or reduce service response latency.";
            priority = high;
          }
          ∷ record {
            id = "verify-endpoint";
            label = "Verify endpoint availability";
            description = "Confirm " <> request <> " responds within the timeout.";
            priority = medium;
          }
          ∷ [];
      confidence = 95;
    }

unfoldable pub diagnose_unexpected_status : TestResult → RunDiagnosis
unfolding sanitize_detail test_result_evidence show status_or
diagnose_unexpected_status result =
    let expected = show result.expected_status in
    let message = sanitize_detail (
      or_else result.error_message
        ("Expected status " <> expected <> ", got " <> status_or result.actual_status "null")) in
    record {
      category = unexpected_status;
      title = "Unexpected HTTP status code";
      summary = step_summary result message;
      primary_evidence =
          test_result_evidence "Failed step" result message
          ∷ about_result result "Status code"
              ("Expected " <> expected <> ", actual " <> status_or result.actual_status "none")
          ∷ [];
      related_evidence = [];
      suggested_actions =
          record {
            id = "compare-response";
            label = "Compare response with baseline";
            description = "Open the failed step response preview and compare with a passing run.";
            priority = high;
          }
          ∷ record {
            id = "fix-expected-status";
            label = "Update expected status";
            description =
                "If "
                <> status_or result.actual_status "null"
                <> " is correct, update the step expected status.";
            priority = medium;
          }
          ∷ [];
      confidence = 95;
    }

abbrev message_of : Option StoredAssertion → Option String
message_of none = none
message_of (some a) = a.message

unfoldable assertion_evidence : TestResult → Option StoredAssertion → List DiagnosisEvidence
unfolding json_text
assertion_evidence result none = []
assertion_evidence result (some a) =
    about_result result ("Assertion " <> a.field_path)
      ("Expected " <> stringified a.expected <> ", actual " <> stringified a.actual)
    ∷ []

abbrev review_description : Option StoredAssertion → String
review_description none = "Open assertion results for the failed step."
review_description (some a) = "Check fieldPath " <> a.field_path <> " (" <> a.operator <> ")."

unfoldable pub diagnose_assertion_mismatch : TestResult → RunDiagnosis
unfolding sanitize_detail test_result_evidence read_assertions failed_assertion assertion_evidence
diagnose_assertion_mismatch result =
    let failed = failed_assertion (read_assertions result.assertion_results) in
    let message = sanitize_detail (
      or_else (or_try (message_of failed) result.error_message)
        "Assertion did not match expected value") in
    record {
      category = assertion_mismatch;
      title = "Assertion mismatch";
      summary = step_summary result message;
      primary_evidence =
          test_result_evidence "Failed step" result message ∷ assertion_evidence result failed;
      related_evidence = [];
      suggested_actions =
          record {
            id = "review-assertion";
            label = "Review failing assertion";
            description = review_description failed;
            priority = high;
          }
          ∷ record {
            id = "compare-with-baseline";
            label = "Compare with last passing run";
            description = "Use run comparison to see if the response shape changed.";
            priority = medium;
          }
          ∷ [];
      confidence = 95;
    }

unfoldable pub diagnose_variable_extraction : TestResult → RunDiagnosis
unfolding sanitize_detail test_result_evidence
diagnose_variable_extraction result =
    let message =
      sanitize_detail (or_else result.error_message "Variable extraction or assignment failed") in
    record {
      category = variable_extraction_failed;
      title = "Variable extraction failed";
      summary = step_summary result message;
      primary_evidence = test_result_evidence "Failed step" result message ∷ [];
      related_evidence = [];
      suggested_actions =
          record {
            id = "verify-json-path";
            label = "Verify JSON path";
            description = "Ensure the save/extract path exists in the source step response.";
            priority = high;
          }
          ∷ record {
            id = "check-source-step";
            label = "Check source step output";
            description = "Confirm the upstream step returned the expected response body.";
            priority = medium;
          }
          ∷ [];
      confidence = 95;
    }

unfoldable pub is_variable_extraction_failure : TestResult → Context → Bool
unfolding occurs variable_extraction_pattern
is_variable_extraction_failure result context =
    occurs variable_extraction_pattern (or_else result.error_message context.message)

unfoldable pub is_http_timeout : TestResult → Context → Bool
unfolding occurs timeout_pattern
is_http_timeout result context =
    if str_eq result.step_type "pollUntil"
      && occurs timeout_pattern (or_else result.error_message "")
    then true
    else occurs timeout_pattern (or_else result.error_message context.message)

abbrev same_code : Option ℕ → ℕ → Bool
same_code none n = false
same_code (some m) n = m == n

abbrev mentions_contains : Option String → Bool
mentions_contains none = false
mentions_contains (some message) = includes_part message "contains"

-- A status that is null in the database is not `undefined`, so it counts as one that differs.
unfoldable pub is_unexpected_status : TestResult → Bool
unfolding read_assertions has_failed_json_assertion
is_unexpected_status result =
    if not (str_eq result.step_type "apiRequest") && not (str_eq result.step_type "pollUntil")
    then false
    else if has_failed_json_assertion (read_assertions result.assertion_results)
    then false
    else not (same_code result.actual_status result.expected_status)
      && not (mentions_contains result.error_message)

-- `diagnoseTestFailure` of a run with a failed result.
unfoldable pub diagnose_step : Context → TestResult → RunDiagnosis
unfolding is_variable_extraction_failure is_http_timeout is_unexpected_status read_assertions
    has_failed_json_assertion diagnose_variable_extraction diagnose_assertion_mismatch
    diagnose_http_timeout diagnose_unexpected_status
diagnose_step context result =
    if str_eq result.step_type "setVariable" || is_variable_extraction_failure result context
    then diagnose_variable_extraction result
    else if str_eq result.step_type "assert"
        || has_failed_json_assertion (read_assertions result.assertion_results)
    then diagnose_assertion_mismatch result
    else if is_http_timeout result context
    then diagnose_http_timeout result
    else if is_unexpected_status result
    then diagnose_unexpected_status result
    else diagnose_assertion_mismatch result
