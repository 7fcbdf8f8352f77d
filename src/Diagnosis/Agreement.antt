-- ===== src/Diagnosis/Agreement.antt =====
-- The two answers of a diagnosis agree on whether the run failed, and with the statuses of a run.
use testing_environment.Common.{
  ◌≡◌, refl, sym, ◌∙◌, ap, inl, inr, Bool, true, false, not, ◌&&◌, ◌||◌, Option, none, some, List,
  arith, Bool-cases, if◌then◌else◌, is_some,
}
use testing_environment.Common.Result.{ok}
use testing_environment.Runs.Status.{TestRunStatus, passed, cancelled, is_terminal, same_status}
use testing_environment.Runs.Run.{TestRun}
use testing_environment.Diagnosis.{
  TestResult, DiagnosisRun, RunDiagnosis, LogChunkPreview, EnvironmentResult, HealthcheckResult,
}
use testing_environment.Diagnosis.Context.{is_terminal_failure_status, read_execution_metadata}
use testing_environment.Diagnosis.Engine.{diagnose}
use testing_environment.Diagnosis.Laws.{IsDated, diagnose_lem}
use testing_environment.Diagnosis.Phases.{is_failure, is_ended}
use testing_environment.Diagnosis.Failure.{build_primary_failure, PrimaryFailure, is_test_assertion}
use testing_environment.Diagnosis.Service.{
  TestRunDiagnosis, build_diagnosis, build_environment_result, build_healthcheck_result,
  build_headline, build_infrastructure,
}

-- The service, the engine and the constants list the statuses of a failed run each for themselves, and alike.
statuses_agree :
    (s : TestRunStatus)
    → (is_failure s ≡ is_terminal_failure_status s)
      × (is_ended s ≡ is_terminal s)
      × (is_terminal_failure_status s ≡ (is_terminal s && not (same_status s passed)))
unfolding is_failure is_terminal_failure_status is_ended is_terminal same_status
statuses_agree s = (ground arith, ground arith, ground arith)

ended_lem :
    (s : TestRunStatus)
    → (not (is_ended s) || same_status s passed) ≡ not (is_terminal_failure_status s)
unfolding is_terminal_failure_status is_ended same_status
ended_lem s = ground arith

not-not : (b : Bool) → not (not b) ≡ b
not-not true = refl
not-not false = refl

some_unless :
    (b c d : Bool) (x y z : PrimaryFailure)
    → is_some (if b then none else if c then some x else if d then some y else some z) ≡ not b
some_unless true c d x y z = refl
some_unless false true d x y z = refl
some_unless false false true x y z = refl
some_unless false false false x y z = refl

primary_lem :
    (run : TestRun) (results : List TestResult) (e : EnvironmentResult) (h : HealthcheckResult)
    → is_some (build_primary_failure run results e h) ≡ is_terminal_failure_status run.status
unfolding build_primary_failure
primary_lem run results e h =
    some_unless (not (is_ended run.status) || same_status run.status passed)
      (same_status run.status cancelled) (is_test_assertion run.failure_category) _ _ _
    ∙ ap not (ended_lem run.status)
    ∙ not-not (is_terminal_failure_status run.status)

pub structured_lem :
    (run : DiagnosisRun) (results : List TestResult) (previews : List LogChunkPreview)
    → IsDated run.row
    → (d : Option RunDiagnosis) × (diagnose run results previews ≡ ok d)
      × (is_some d ≡ is_terminal_failure_status run.row.status)
structured_lem run results previews dated =
    let (failed, other) = diagnose_lem run results previews dated in
    elim (Bool-cases (is_terminal_failure_status run.row.status)) [
      | inl p ↦ let (d, e, _) = failed p in (some d, e, sym p)
      | inr p ↦ (none, other p, sym p)
    ]

-- If every timestamp of the run is a date, the answer to the client comes to be, and it names a primary
-- failure exactly if it has a diagnosis, which is exactly if the run is terminal and did not pass.
pub build_diagnosis_lem :
    (run : DiagnosisRun) (results : List TestResult) (previews : List LogChunkPreview)
    → IsDated run.row
    → (d : TestRunDiagnosis) × (build_diagnosis run results previews ≡ ok d)
      × (is_some d.primary_failure ≡ is_some d.structured_diagnosis)
      × (is_some d.primary_failure
          ≡ (is_terminal run.row.status && not (same_status run.row.status passed)))
unfolding build_diagnosis
build_diagnosis_lem run results previews dated =
    let metadata = read_execution_metadata run.execution_metadata in
    let environment = build_environment_result run.row metadata in
    let health = build_healthcheck_result run.row metadata in
    let failure = build_primary_failure run.row results environment health in
    let (structured, e, p) = structured_lem run results previews dated in
    let d : TestRunDiagnosis = record {
      failure_category = run.row.failure_category;
      headline = build_headline run.row failure;
      primary_failure = failure;
      environment_result = environment;
      healthcheck_result = health;
      infrastructure = build_infrastructure run.row;
      structured_diagnosis = structured;
    } in
    let q = primary_lem run.row results environment health in
    (d, rw e refl, q ∙ sym p, q ∙ (statuses_agree run.row.status).2)
