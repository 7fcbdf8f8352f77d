-- ===== src/Runner/Lifecycle/Verdict.antt =====
-- What an execution should make of a run: the first thing that goes wrong decides, and otherwise the tests do.
use testing_environment.Common.{
  String, true, Option, none, some, List, [], ◌∷◌, ltb, if◌then◌else◌, ◌≡◌, is_some,
}
use testing_environment.Common.Text.{◌<>◌, show}
use testing_environment.Common.Result.{Result, ok, err}
use testing_environment.Common.Table.{Table}
use testing_environment.Runs.Status.{
  TestRunStatus, queued, claimed, preparing_workspace, validating_environment, pulling_images,
  starting_environment, waiting_for_healthcheck, executing_tests, collecting_artifacts, passed,
  test_failed, infra_failed, timed_out, cancelled,
}
use testing_environment.Runs.Run.{TestRun, Stats, FailureCategory, test_assertion}
use testing_environment.Runner.{Interruption, run_cancelled, run_error}
use testing_environment.Runner.Execution.{failure_category_for}
use testing_environment.Runner.Outcomes.{Outcomes, required, when, is_timeout_category}

pub record Verdict : Type 0 where
  pub status : TestRunStatus
  pub category : Option FailureCategory
  pub message : Option String

abbrev failed_with : FailureCategory → String → Verdict
failed_with category message = record {
  status = if is_timeout_category category then timed_out else infra_failed;
  category = some category;
  message = some message;
}

-- The run breaks off while it has this status.
unfoldable pub broken : (String → String) → TestRunStatus → Interruption → Verdict
unfolding failure_category_for
broken mask status run_cancelled = record {
  status = cancelled;
  category = some FailureCategory.cancelled;
  message = some "Test run was cancelled";
}
broken mask status (run_error message) =
    failed_with (failure_category_for (some status) (mask message)) (mask message)

unfoldable pub tested : Stats → Verdict
unfolding show
tested stats =
    if ltb 0 stats.failed_tests
    then record {
      status = test_failed;
      category = some test_assertion;
      message = some (show stats.failed_tests <> " test assertion(s) failed");
    }
    else record { status = passed; category = none; message = none }

-- What happens, with the status that the run has meanwhile.
abbrev pub Happening : Type 0
Happening = TestRunStatus × Result Interruption Unit

-- The verdict at the end is for when nothing goes wrong.
unfoldable pub verdict_of : (String → String) → List Happening → Verdict → Verdict
unfolding broken
verdict_of mask [] end = end
verdict_of mask ((status, ok u) ∷ rest) end = verdict_of mask rest end
verdict_of mask ((status, err e) ∷ rest) end = broken mask status e

abbrev pub collection : Outcomes → List Happening
collection o = (collecting_artifacts, o.logs) ∷ []

unfoldable pub verdict_of_tests : (String → String) → Outcomes → Result Interruption Stats → Verdict
unfolding broken tested verdict_of
verdict_of_tests mask o (ok stats) = verdict_of mask (collection o) (tested stats)
verdict_of_tests mask o (err e) = broken mask executing_tests e

abbrev pub beginnings : Outcomes → List Happening → List Happening
beginnings o rest =
    (
      queued,
      required o.has_environment "Environment config revision is required before running tests",
    )
    ∷ (queued, required o.has_suites "At least one test suite revision is required")
    ∷ rest

abbrev pub preparations : Outcomes → List Happening → List Happening
preparations o rest = (claimed, o.signal_after_claim) ∷ (preparing_workspace, o.workspace) ∷ rest

abbrev pub health : Outcomes → List Happening
health o =
    (starting_environment, o.signal_before_healthcheck)
    ∷ (waiting_for_healthcheck, o.healthcheck)
    ∷ []

abbrev pub environment : Outcomes → List Happening
environment o =
    (pulling_images, o.images) ∷ (starting_environment, when o.uses_docker o.docker_up) ∷ health o

abbrev pub phases : Outcomes → List Happening
phases o =
    (preparing_workspace, o.secrets)
    ∷ (validating_environment, when o.uses_docker o.compose)
    ∷ (validating_environment, o.files)
    ∷ (validating_environment, o.signal_before_images)
    ∷ environment o

unfoldable pub verdict : (String → String) → Outcomes → Verdict
unfolding verdict_of verdict_of_tests
verdict mask o =
    verdict_of mask (beginnings o (preparations o (phases o))) (verdict_of_tests mask o o.suites)

-- The run of the table is as the verdict says, and finished.
pub record IsSeen (T : Table TestRun) (id : String) (v : Verdict) (db : T.Db) : Type 0 where
  pub run : TestRun
  pub found : T.find db id ≡ some run
  pub status : run.status ≡ v.status
  pub category : run.failure_category ≡ v.category
  pub message : run.error_message ≡ v.message
  pub finished : is_some run.finished_at ≡ true
