-- ===== src/Diagnosis/Evidence.antt =====
-- The pieces of evidence that the diagnoses are built of (the private helpers of
-- test-runs/failure-diagnosis/failure-diagnosis.engine.ts), and the assertions stored with a result.
use testing_environment.Common.{
  ℕ, zero, suc, String, Bool, true, false, not, ◌||◌, Option, none, some, List, [], ◌∷◌, ◌++◌, map,
  or_else, if◌then◌else◌, str_eq,
}
use testing_environment.Common.Text.{◌<>◌}
use testing_environment.Common.Time.{Moment, at, invalid_date, iso_text}
use testing_environment.Common.Result.{Result, ok, err}
use testing_environment.Runs.Status.{TestRunStatus}
use testing_environment.Runs.Rows.{status_name}
use testing_environment.Suites.Flow.{
  Json, null, boolean, number, text, array, object, Items, end, item, Fields,
}
use testing_environment.Assertions.{field_named}
use testing_environment.Diagnosis.{
  TestResult, ImageReference, LogSource, system, docker, from_test, from_error, LogChunkPreview,
  DiagnosisEvidence, test_result, phase, log_excerpt, environment, run_field, to_test_result,
  to_phase, to_log_chunk, to_field, RangeError, invalid_time,
}
use testing_environment.Diagnosis.Context.{Context, phase_timestamp, sanitize_detail}

unfoldable pub run_field_evidence : String → String → String → DiagnosisEvidence
unfolding sanitize_detail
run_field_evidence label detail name = record {
  type = run_field;
  label = label;
  detail = sanitize_detail detail;
  ref = to_field name;
}

unfoldable pub test_result_evidence : String → TestResult → String → DiagnosisEvidence
unfolding sanitize_detail
test_result_evidence label result detail = record {
  type = test_result;
  label = label;
  detail = sanitize_detail detail;
  ref = to_test_result result.id;
}

unfoldable pub entered : TestRunStatus → Option Moment → Result RangeError (List DiagnosisEvidence)
unfolding iso_text status_name
entered status none = ok []
entered status (some invalid_date) = err invalid_time
entered status (some (at ms)) =
    let evidence : DiagnosisEvidence = record {
      type = phase;
      label = "Phase " <> status_name status;
      detail = "Entered at " <> iso_text ms;
      ref = to_phase (status_name status);
    } in
    ok (evidence ∷ [])

unfoldable pub phase_evidence : Context → TestRunStatus → Result RangeError (List DiagnosisEvidence)
unfolding phase_timestamp entered
phase_evidence context status =
    entered status (phase_timestamp context.run.row.phase_timestamps status)

abbrev source_name : LogSource → String
source_name system = "SYSTEM"
source_name docker = "DOCKER"
source_name from_test = "TEST"
source_name from_error = "ERROR"

abbrev is_from_docker : LogSource → Bool
is_from_docker docker = true
is_from_docker from_error = true
is_from_docker _ = false

-- `filter`, and `slice(0, n)`
abbrev pub filter : {A : Type 0} → (A → Bool) → List A → List A
filter keep [] = []
filter keep (x ∷ xs) = if keep x then x ∷ filter keep xs else filter keep xs

abbrev pub take : {A : Type 0} → ℕ → List A → List A
take zero xs = []
take (suc n) [] = []
take (suc n) (x ∷ xs) = x ∷ take n xs

abbrev pub log_evidence : LogChunkPreview → DiagnosisEvidence
log_evidence chunk = record {
  type = log_excerpt;
  label = source_name chunk.source <> " log";
  detail = chunk.preview;
  ref = to_log_chunk chunk.sequence;
}

unfoldable pub docker_log_evidence : Context → List DiagnosisEvidence
docker_log_evidence context =
    map log_evidence (take 3 (filter (λ chunk. is_from_docker chunk.source) context.log_previews))

abbrev image_evidence : ImageReference → DiagnosisEvidence
image_evidence reference = record {
  type = environment;
  label = "Image " <> reference.service_name;
  detail = reference.image;
  ref = to_phase "image_preparation";
}

unfoldable pub image_reference_evidence : Context → List DiagnosisEvidence
image_reference_evidence context =
    map image_evidence (take 5 (or_else context.metadata.image_references []))

-- `StoredAssertionResult`. `undefined` is `none`.
pub record StoredAssertion : Type 0 where
  pub field_path : String
  pub operator : String
  pub expected : Option Json
  pub actual : Option Json
  pub passed : Bool
  pub message : Option String

-- `Boolean(value)`
abbrev pub truthy : Option Json → Bool
truthy none = false
truthy (some null) = false
truthy (some (boolean b)) = b
truthy (some (number n)) = not (str_eq n "0")
truthy (some (text s)) = not (str_eq s "")
truthy (some (array _)) = true
truthy (some (object _)) = true

abbrev pub text_or_undefined : Option Json → Option String
text_or_undefined (some (text s)) = some s
text_or_undefined _ = none

abbrev stored : Fields → Option String → Option String → List StoredAssertion
unfolding field_named
stored fields (some path) (some op) =
    let assertion : StoredAssertion = record {
      field_path = path;
      operator = op;
      expected = field_named "expected" fields;
      actual = field_named "actual" fields;
      passed = truthy (field_named "passed" fields);
      message = text_or_undefined (field_named "message" fields);
    } in
    assertion ∷ []
stored fields _ _ = []

unfoldable assertion_of : Json → List StoredAssertion
unfolding field_named
assertion_of (object fields) =
    stored fields (text_or_undefined (field_named "fieldPath" fields))
      (text_or_undefined (field_named "operator" fields))
assertion_of _ = []

unfoldable assertions_of : Items → List StoredAssertion
unfolding assertion_of
assertions_of end = []
assertions_of (item v rest) = assertion_of v ++ assertions_of rest

unfoldable pub read_assertions : Option Json → List StoredAssertion
unfolding assertions_of
read_assertions (some (array items)) = assertions_of items
read_assertions _ = []

-- `assertions.find((assertion) => !assertion.passed)`
unfoldable pub failed_assertion : List StoredAssertion → Option StoredAssertion
failed_assertion [] = none
failed_assertion (a ∷ rest) = if a.passed then failed_assertion rest else some a

unfoldable pub has_failed_json_assertion : List StoredAssertion → Bool
has_failed_json_assertion [] = false
has_failed_json_assertion (a ∷ rest) =
    let later = has_failed_json_assertion rest in
    if a.passed || str_eq a.field_path "$.status" then later else true
