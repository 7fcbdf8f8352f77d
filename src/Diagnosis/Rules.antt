-- ===== src/Diagnosis/Rules.antt =====
-- Which category the engine diagnoses.
use testing_environment.Common.{
  ◌&&◌, ◌≡◌, refl, inl, inr, true, false, Option, none, some, List, Bool-cases, if◌then◌else◌,
  if_lem, arith, ◌||◌, Bool,
}
use testing_environment.Common.Time.{Moment}
use testing_environment.Common.Regex.{occurs}
use testing_environment.Common.Result.{Result, ok, err, ◌>>=◌}
use testing_environment.Runs.Status.{
  TestRunStatus, infra_failed, timed_out, test_failed, same_status, waiting_for_healthcheck,
}
use testing_environment.Runs.Run.{
  FailureCategory, environment_validation, image_pull, container_start, healthcheck, network,
  test_assertion, timeout, cancelled, internal,
}
use testing_environment.Diagnosis.{
  TestResult, DiagnosisRun, LogChunkPreview, RunDiagnosis, RangeError, DiagnosisCategory,
  compose_validation_failed, image_pull_failed, container_exited, port_conflict,
  healthcheck_timeout, dns_network_failure, DiagnosisEvidence,
}
use testing_environment.Diagnosis.Patterns.{
  image_pull_pattern, port_conflict_pattern, timeout_pattern, container_exit_pattern,
}
use testing_environment.Diagnosis.Context.{
  Context, build_context, phase_timestamp, is_terminal_failure_status,
}
use testing_environment.Diagnosis.Evidence.{phase_evidence}
use testing_environment.Diagnosis.Infrastructure.{diagnose_compose_validation, diagnose_image_pull}
use testing_environment.Diagnosis.Containers.{diagnose_container_exited, diagnose_port_conflict}
use testing_environment.Diagnosis.Health.{
  diagnose_healthcheck_timeout, diagnose_healthcheck_failure, diagnose_network_failure,
}
use testing_environment.Diagnosis.Engine.{
  diagnose, diagnose_failure, diagnose_timeout, diagnose_infra_failure, is_cleanup_only_failure,
}
use testing_environment.Diagnosis.Laws.{IsDated, phase_evidence_lem, not_passed}

abbrev Finds : DiagnosisCategory → Result RangeError RunDiagnosis → Type 0
Finds category (ok d) = d.category ≡ category
Finds category (err e) = ⊥

-- The engine answers with a diagnosis of this category.
abbrev pub Diagnoses : DiagnosisCategory → Result RangeError (Option RunDiagnosis) → Type 0
Diagnoses category (ok (some d)) = d.category ≡ category
Diagnoses category _ = ⊥

with_phase :
    (c : Context) (status : TestRunStatus) (f : List DiagnosisEvidence → RunDiagnosis)
    (category : DiagnosisCategory)
    → IsDated c.run.row
    → ((es : List DiagnosisEvidence) → (f es).category ≡ category)
    → Finds category (phase_evidence c status >>= λ es. ok (f es))
with_phase c status f category dated h =
    let (es, e) = phase_evidence_lem c status (dated status) in rw e (h es)

found :
    (category : DiagnosisCategory) (r : Result RangeError RunDiagnosis)
    → Finds category r
    → Diagnoses category (do d ← r; ok (some d))
found category (ok d) h = h
found category (err e) h = absurd h

module _ (c : Context) (dated : IsDated c.run.row) where
  compose_lem : Finds compose_validation_failed (diagnose_compose_validation c)
  unfolding diagnose_compose_validation
  compose_lem = with_phase c _ _ _ dated (λ es. refl)

  exited_lem : Finds container_exited (diagnose_container_exited c)
  unfolding diagnose_container_exited
  exited_lem = with_phase c _ _ _ dated (λ es. refl)

  port_lem : Finds port_conflict (diagnose_port_conflict c)
  unfolding diagnose_port_conflict
  port_lem = with_phase c _ _ _ dated (λ es. refl)

  timeout_lem : Finds healthcheck_timeout (diagnose_healthcheck_timeout c)
  unfolding diagnose_healthcheck_timeout
  timeout_lem = with_phase c _ _ _ dated (λ es. refl)

  failure_lem : Finds healthcheck_timeout (diagnose_healthcheck_failure c)
  unfolding diagnose_healthcheck_failure
  failure_lem = with_phase c _ _ _ dated (λ es. refl)

-- The category for a cause in the environment that the runner has recorded.
unfoldable pub expected_category : FailureCategory → Context → Option DiagnosisCategory
expected_category environment_validation c = some compose_validation_failed
expected_category image_pull c = some image_pull_failed
expected_category container_start c =
    some (if occurs port_conflict_pattern c.message then port_conflict else container_exited)
expected_category healthcheck c = some healthcheck_timeout
expected_category network c = some dns_network_failure
expected_category _ c = none

abbrev Agrees : Option DiagnosisCategory → Result RangeError RunDiagnosis → Type 0
Agrees none r = Unit
Agrees (some category) r = Finds category r

infra_lem :
    (c : Context) (cause : FailureCategory)
    → IsDated c.run.row
    → c.run.row.failure_category ≡ some cause
    → occurs image_pull_pattern c.message ≡ false
    → Agrees (expected_category cause c) (diagnose_infra_failure c)
unfolding diagnose_infra_failure expected_category diagnose_image_pull diagnose_network_failure
infra_lem c environment_validation dated e p = rw e (compose_lem c dated)
infra_lem c image_pull dated e p = rw e refl
infra_lem c container_start dated e p = elim (Bool-cases (occurs port_conflict_pattern c.message)) [
  | inl q ↦ rw (e, p, q) (port_lem c dated)
  | inr q ↦
      rw (e, p, q)
        (if_lem (Finds container_exited) (occurs container_exit_pattern c.message)
          (exited_lem c dated) (exited_lem c dated))
]
infra_lem c healthcheck dated e p =
    rw (e, p)
      (if_lem (Finds healthcheck_timeout) (occurs timeout_pattern c.message) (timeout_lem c dated)
        (failure_lem c dated))
infra_lem c network dated e p = rw (e, p) refl
infra_lem c test_assertion dated e p = tt
infra_lem c timeout dated e p = tt
infra_lem c cancelled dated e p = tt
infra_lem c internal dated e p = tt

-- Of a run that has ended in a failure the engine answers the diagnosis of its failure.
diagnose-diagnose_failure :
    (run : DiagnosisRun) (results : List TestResult) (previews : List LogChunkPreview)
    → is_terminal_failure_status run.row.status ≡ true
    → diagnose run results previews
      ≡ (do d ← diagnose_failure (build_context run results previews); ok (some d))
unfolding diagnose
diagnose-diagnose_failure run results previews e = rw (not_passed run.row.status e, e) refl

and_false : (a b c d : Bool) → a && b && c && false && d ≡ false
and_false a b c d = ground arith

recorded_lem :
    (c : Context) (cause : FailureCategory)
    → c.run.row.failure_category ≡ some cause
    → is_cleanup_only_failure c ≡ false
unfolding is_cleanup_only_failure
recorded_lem c cause e = rw (e, and_false) refl

-- The order in which the engine looks at the status and at the cleanup.
unfoldable ladder :
    TestRunStatus
    → Bool
    → (a b c d e f : Result RangeError RunDiagnosis) → Result RangeError RunDiagnosis
unfolding same_status
ladder status alone a b c d e f =
    if same_status status TestRunStatus.cancelled
    then a
    else if alone
    then b
    else if same_status status test_failed
    then c
    else if same_status status timed_out
    then d
    else if same_status status infra_failed
    then e
    else f

ladder_lem :
    (status : TestRunStatus) (alone : Bool) (a b c d e f : Result RangeError RunDiagnosis)
    → alone ≡ false
    → (status ≡ infra_failed → ladder status alone a b c d e f ≡ e)
      × (status ≡ timed_out → ladder status alone a b c d e f ≡ d)
unfolding ladder same_status
ladder_lem status alone a b c d e f h = (λ s. rw (s, h) refl, λ s. rw (s, h) refl)

failure-infra :
    (c : Context)
    → c.run.row.status ≡ infra_failed
    → is_cleanup_only_failure c ≡ false
    → diagnose_failure c ≡ diagnose_infra_failure c
unfolding diagnose_failure same_status ladder
failure-infra c s h = (ladder_lem c.run.row.status (is_cleanup_only_failure c) _ _ _ _ _ _ h).0 s

failure-timeout :
    (c : Context)
    → c.run.row.status ≡ timed_out
    → is_cleanup_only_failure c ≡ false
    → diagnose_failure c ≡ diagnose_timeout c
unfolding diagnose_failure same_status ladder
failure-timeout c s h = (ladder_lem c.run.row.status (is_cleanup_only_failure c) _ _ _ _ _ _ h).1 s

are_failures :
    (is_terminal_failure_status infra_failed ≡ true) × (is_terminal_failure_status timed_out ≡ true)
unfolding is_terminal_failure_status same_status
are_failures = (refl, refl)

or_true : (a b : Bool) → a || true || b ≡ true
or_true a b = ground arith

waited_lem :
    (c : Context) (began : Moment)
    → phase_timestamp c.run.row.phase_timestamps waiting_for_healthcheck ≡ some began
    → diagnose_timeout c ≡ diagnose_healthcheck_timeout c
unfolding diagnose_timeout
waited_lem c began e = rw (e, or_true) refl

-- If a run failed for its infrastructure and the message does not speak of an image, the engine diagnoses
-- the category of the cause that the runner has recorded, for each cause in the environment: a port conflict
-- in place of a container that exited exactly if the message tells of one.
pub diagnose_infra_lem :
    (run : DiagnosisRun) (results : List TestResult) (previews : List LogChunkPreview)
    (cause : FailureCategory) (category : DiagnosisCategory)
    → IsDated run.row
    → run.row.status ≡ infra_failed
    → run.row.failure_category ≡ some cause
    → occurs image_pull_pattern (build_context run results previews).message ≡ false
    → expected_category cause (build_context run results previews) ≡ some category
    → Diagnoses category (diagnose run results previews)
unfolding build_context
diagnose_infra_lem run results previews cause category dated s e p h =
    let c : Context = build_context run results previews in
    rw
      (
        diagnose-diagnose_failure run results previews (rw s are_failures.0),
        failure-infra c s (recorded_lem c cause e),
      )
      (found category _ (rw h at (infra_lem c cause dated e p)))

-- A run that timed out after it began to wait for its health check is diagnosed with a health check that
-- timed out, however far it came after that, unless its only error is that of the cleanup.
pub diagnose_timed_out :
    (run : DiagnosisRun) (results : List TestResult) (previews : List LogChunkPreview)
    (began : Moment)
    → IsDated run.row
    → run.row.status ≡ timed_out
    → phase_timestamp run.row.phase_timestamps waiting_for_healthcheck ≡ some began
    → is_cleanup_only_failure (build_context run results previews) ≡ false
    → Diagnoses healthcheck_timeout (diagnose run results previews)
unfolding build_context
diagnose_timed_out run results previews began dated s e h =
    let c : Context = build_context run results previews in
    rw
      (
        diagnose-diagnose_failure run results previews (rw s are_failures.1),
        failure-timeout c s h,
        waited_lem c began e,
      )
      (found healthcheck_timeout _ (timeout_lem c dated))
