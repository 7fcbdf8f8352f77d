-- ===== src/Diagnosis/Context.antt =====
-- The context of a diagnosis: what is read from the run, and the details without secrets and no longer
-- than a limit (test-runs/failure-diagnosis/failure-diagnosis-context.ts, and the functions of
-- failure-diagnosis.types.ts).
use Prim.Native.Char.{Char, code}
use testing_environment.Common.{
  ℕ, String, Bool, true, false, not, ◌||◌, Option, none, some, List, [], ◌∷◌, map, ◌==◌, or_else,
  or_try, if◌then◌else◌, str_eq, ltb,
}
use testing_environment.Common.Text.{◌<>◌, units, clip, is_space}
use testing_environment.Common.Time.{Moment, at, invalid_date}
use testing_environment.Common.Regex.{Regex, word, one, many, maybe, many1, ◌~◌, ◌/◌, replace_all}
use testing_environment.Runs.Status.{
  TestRunStatus, test_failed, infra_failed, timed_out, cancelled, same_status,
}
use testing_environment.Runs.Rows.{status_name}
use testing_environment.Runs.Run.{Stamp, iso, text, not_text}
use testing_environment.Diagnosis.{
  TestResult, ResultStatus, step_passed, step_failed, Metadata, DiagnosisRun, LogChunkPreview,
}

unfoldable pub is_terminal_failure_status : TestRunStatus → Bool
unfolding same_status
is_terminal_failure_status status =
    same_status status test_failed
    || same_status status infra_failed
    || same_status status timed_out
    || same_status status cancelled

abbrev pub empty_metadata : Metadata
empty_metadata = record {
  environment_result = none;
  healthcheck_result = none;
  image_references = none;
  uses_docker_compose = none;
}

abbrev pub read_execution_metadata : Option Metadata → Metadata
read_execution_metadata value = or_else value empty_metadata

abbrev pub date_of : Stamp → Option Moment
date_of (iso ms) = some (at ms)
date_of (text s) = some invalid_date
date_of not_text = none

-- `readPhaseTimestamps(value)[status]`. The keys of an object differ from one another.
unfoldable pub stamp_of : String → List (String × Stamp) → Option Moment
stamp_of key [] = none
stamp_of key ((k, stamp) ∷ rest) = if str_eq k key then date_of stamp else stamp_of key rest

unfoldable pub phase_timestamp : Option (List (String × Stamp)) → TestRunStatus → Option Moment
unfolding stamp_of status_name
phase_timestamp none status = none
phase_timestamp (some stamps) status = stamp_of (status_name status) stamps

abbrev quote : Char → Bool
quote c = code c == 34

abbrev pub secret_key : Regex
secret_key =
    word "password"
    / word "secret"
    / word "token"
    / word "api" ~ maybe (one (λ c. code c == 95 || code c == 45)) ~ word "key"
    / word "authorization"

-- `"?(?:password|…)"?\s*[:=]\s*`, and the quoted value that follows
abbrev quoted_key : Regex
quoted_key =
    maybe (one quote)
    ~ secret_key
    ~ maybe (one quote)
    ~ many is_space
    ~ one (λ c. code c == 58 || code c == 61)
    ~ many is_space

abbrev quoted_value : Regex
quoted_value = one quote ~ many (λ c. not (quote c)) ~ one quote

unfoldable pub redact_quoted : String → String
unfolding replace_all
redact_quoted s = replace_all quoted_key quoted_value "\"***\"" s

unfoldable pub redact_parameter : String → String
unfolding replace_all
redact_parameter s =
    replace_all (secret_key ~ word "=") (many1 (λ c. not (is_space c || code c == 38))) "***" s

abbrev pub max_detail_length : ℕ
max_detail_length = 240

abbrev pub limited : String → String
limited s = if ltb max_detail_length (units s) then clip max_detail_length s <> "…" else s

unfoldable pub sanitize_detail : String → String
unfolding redact_quoted redact_parameter units clip
sanitize_detail value =
    if str_eq value "" then "" else limited (redact_parameter (redact_quoted value))

abbrev pub has_failed : ResultStatus → Bool
has_failed step_passed = false
has_failed step_failed = true

-- `results.find((result) => result.status === FAILED)`
unfoldable pub first_failed : List TestResult → Option TestResult
first_failed [] = none
first_failed (r ∷ rs) = if has_failed r.status then some r else first_failed rs

abbrev pub message_of_result : Option TestResult → Option String
message_of_result none = none
message_of_result (some r) = r.error_message

-- `FailureDiagnosisContext`
pub record Context : Type 0 where
  pub run : DiagnosisRun
  pub results : List TestResult
  pub metadata : Metadata
  pub log_previews : List LogChunkPreview
  pub failed_result : Option TestResult
  pub message : String

unfoldable pub sanitized : LogChunkPreview → LogChunkPreview
unfolding sanitize_detail
sanitized chunk = record chunk { preview = sanitize_detail chunk.preview }

unfoldable pub build_context : DiagnosisRun → List TestResult → List LogChunkPreview → Context
unfolding sanitize_detail first_failed sanitized
build_context run results previews =
    let failed = first_failed results in
    record {
      run = run;
      results = results;
      metadata = read_execution_metadata run.execution_metadata;
      log_previews = map sanitized previews;
      failed_result = failed;
      message = sanitize_detail (
          or_else
            (or_try run.row.error_message (or_try run.row.status_reason (message_of_result failed)))
            "");
    }
