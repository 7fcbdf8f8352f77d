-- ===== src/Diagnosis/Laws.antt =====
-- Which runs get a diagnosis, and what a diagnosis has.
use testing_environment.Common.{
  ◌≤◌, ◌≡◌, refl, ◌≢◌, true, false, Option, none, some, List, [], length, arith, if◌then◌else◌,
  if_lem, or_true, ◌||◌, not, is_some, str_eq,
}
use testing_environment.Common.Time.{Moment, at, invalid_date}
use testing_environment.Common.Result.{Result, ok, err, ◌>>=◌}
use testing_environment.Common.Regex.{occurs}
use testing_environment.Runs.Status.{
  TestRunStatus, passed, cancelled, test_failed, timed_out, infra_failed, waiting_for_healthcheck,
  same_status,
}
use testing_environment.Runs.Run.{TestRun}
use testing_environment.Diagnosis.{
  TestResult, DiagnosisRun, LogChunkPreview, RunDiagnosis, RangeError, DiagnosisEvidence,
}
use testing_environment.Diagnosis.Context.{
  Context, build_context, phase_timestamp, is_terminal_failure_status,
}
use testing_environment.Diagnosis.Evidence.{
  phase_evidence, entered, read_assertions, has_failed_json_assertion,
}
use testing_environment.Diagnosis.Patterns.{
  image_pull_pattern, network_pattern, port_conflict_pattern, timeout_pattern,
  container_exit_pattern,
}
use testing_environment.Diagnosis.Infrastructure.{
  is_image_pull, is_network, diagnose_cancelled, diagnose_cleanup_failed,
  diagnose_compose_validation, diagnose_image_pull,
}
use testing_environment.Diagnosis.Containers.{diagnose_container_exited, diagnose_port_conflict}
use testing_environment.Diagnosis.Health.{
  diagnose_healthcheck_timeout, diagnose_healthcheck_failure, diagnose_network_failure,
  diagnose_internal,
}
use testing_environment.Diagnosis.Steps.{
  is_variable_extraction_failure, is_http_timeout, is_unexpected_status, diagnose_step,
  diagnose_variable_extraction, diagnose_assertion_mismatch, diagnose_http_timeout,
  diagnose_unexpected_status,
}
use testing_environment.Diagnosis.Engine.{
  is_environment_validation, is_container_start, is_healthcheck, is_timeout,
  is_cleanup_only_failure, diagnose, diagnose_failed_result, diagnose_failure,
  diagnose_test_failure, diagnose_timeout, diagnose_infra_failure,
}

-- Evidence to show, something to do, and a confidence between a half and 0.95.
abbrev pub IsActionable : RunDiagnosis → Type 0
IsActionable d =
    (1 ≤ length d.primary_evidence)
    × (1 ≤ length d.suggested_actions)
    × (50 ≤ d.confidence)
    × (d.confidence ≤ 95)

-- No timestamp of the run is one that could not be parsed.
abbrev pub IsDated : TestRun → Type 0
IsDated run =
    (status : TestRunStatus) → phase_timestamp run.phase_timestamps status ≢ some invalid_date

abbrev Succeeds : Result RangeError RunDiagnosis → Type 0
Succeeds (ok d) = IsActionable d
Succeeds (err e) = ⊥

entered_lem :
    (status : TestRunStatus) (o : Option Moment)
    → o ≢ some invalid_date
    → (es : List DiagnosisEvidence) × (entered status o ≡ ok es)
unfolding entered
entered_lem status none h = ([], refl)
entered_lem status (some (at ms)) h = (_, refl)
entered_lem status (some invalid_date) h = absurd (h refl)

pub phase_evidence_lem :
    (c : Context) (status : TestRunStatus)
    → phase_timestamp c.run.row.phase_timestamps status ≢ some invalid_date
    → (es : List DiagnosisEvidence) × (phase_evidence c status ≡ ok es)
unfolding phase_evidence
phase_evidence_lem c status h = entered_lem status _ h

-- A diagnosis that has evidence of a phase.
with_phase :
    (c : Context) (status : TestRunStatus) (f : List DiagnosisEvidence → RunDiagnosis)
    → phase_timestamp c.run.row.phase_timestamps status ≢ some invalid_date
    → ((es : List DiagnosisEvidence) → IsActionable (f es))
    → Succeeds (phase_evidence c status >>= λ es. ok (f es))
with_phase c status f dated h = let (es, e) = phase_evidence_lem c status dated in rw e (h es)

-- The engine's rules, each of which gives a diagnosis that a person can act on.
module _ (c : Context) (dated : IsDated c.run.row) where
  compose_validation_lem : Succeeds (diagnose_compose_validation c)
  unfolding diagnose_compose_validation
  compose_validation_lem = with_phase c _ _ (dated _) (λ es. ground arith)

  container_exited_lem : Succeeds (diagnose_container_exited c)
  unfolding diagnose_container_exited
  container_exited_lem = with_phase c _ _ (dated _) (λ es. ground arith)

  port_conflict_lem : Succeeds (diagnose_port_conflict c)
  unfolding diagnose_port_conflict
  port_conflict_lem = with_phase c _ _ (dated _) (λ es. ground arith)

  healthcheck_timeout_lem : Succeeds (diagnose_healthcheck_timeout c)
  unfolding diagnose_healthcheck_timeout
  healthcheck_timeout_lem = with_phase c _ _ (dated _) (λ es. ground arith)

  healthcheck_failure_lem : Succeeds (diagnose_healthcheck_failure c)
  unfolding diagnose_healthcheck_failure
  healthcheck_failure_lem = with_phase c _ _ (dated _) (λ es. ground arith)

  timeout_lem : Succeeds (diagnose_timeout c)
  unfolding diagnose_timeout diagnose_internal
  timeout_lem =
      if_lem Succeeds
        (is_healthcheck c.run.row.failure_category
          || is_some (phase_timestamp c.run.row.phase_timestamps waiting_for_healthcheck)
          || occurs timeout_pattern c.message)
        healthcheck_timeout_lem (ground arith)

  image_pull_lem : IsActionable (diagnose_image_pull c)
  unfolding diagnose_image_pull
  image_pull_lem = ground arith

  network_failure_lem : IsActionable (diagnose_network_failure c)
  unfolding diagnose_network_failure
  network_failure_lem = ground arith

  internal_lem : IsActionable (diagnose_internal c none)
  unfolding diagnose_internal
  internal_lem = ground arith

  cancelled_lem : IsActionable (diagnose_cancelled c)
  unfolding diagnose_cancelled
  cancelled_lem = ground arith

  cleanup_failed_lem : IsActionable (diagnose_cleanup_failed c)
  unfolding diagnose_cleanup_failed
  cleanup_failed_lem = ground arith

  infra_failure_lem : Succeeds (diagnose_infra_failure c)
  unfolding diagnose_infra_failure
  infra_failure_lem =
      let category = c.run.row.failure_category in
      if_lem Succeeds (is_environment_validation category) compose_validation_lem (
        if_lem Succeeds (is_image_pull category || occurs image_pull_pattern c.message)
          image_pull_lem
          (if_lem Succeeds (is_container_start category)
            (if_lem Succeeds (occurs port_conflict_pattern c.message) port_conflict_lem (
              if_lem Succeeds (occurs container_exit_pattern c.message) container_exited_lem
                container_exited_lem))
            (if_lem Succeeds (is_healthcheck category)
              (if_lem Succeeds (occurs timeout_pattern c.message) healthcheck_timeout_lem
                healthcheck_failure_lem)
              (if_lem Succeeds (is_network category || occurs network_pattern c.message)
                network_failure_lem
                (if_lem Succeeds (is_timeout category) timeout_lem internal_lem)))))

  variable_lem : (r : TestResult) → IsActionable (diagnose_variable_extraction r)
  unfolding diagnose_variable_extraction
  variable_lem r = ground arith

  mismatch_lem : (r : TestResult) → IsActionable (diagnose_assertion_mismatch r)
  unfolding diagnose_assertion_mismatch
  mismatch_lem r = ground arith

  http_timeout_lem : (r : TestResult) → IsActionable (diagnose_http_timeout r)
  unfolding diagnose_http_timeout
  http_timeout_lem r = ground arith

  unexpected_status_lem : (r : TestResult) → IsActionable (diagnose_unexpected_status r)
  unfolding diagnose_unexpected_status
  unexpected_status_lem r = ground arith

  step_lem : (r : TestResult) → IsActionable (diagnose_step c r)
  unfolding diagnose_step
  step_lem r =
      if_lem IsActionable (str_eq r.step_type "setVariable" || is_variable_extraction_failure r c)
        (variable_lem r)
        (if_lem IsActionable
          (str_eq r.step_type "assert"
            || has_failed_json_assertion (read_assertions r.assertion_results))
          (mismatch_lem r)
          (if_lem IsActionable (is_http_timeout r c) (http_timeout_lem r) (
            if_lem IsActionable (is_unexpected_status r) (unexpected_status_lem r)
              (mismatch_lem r))))

  failed_result_lem : (o : Option TestResult) → IsActionable (diagnose_failed_result c o)
  failed_result_lem none = internal_lem
  failed_result_lem (some r) = step_lem r

  failure_lem : Succeeds (diagnose_failure c)
  unfolding diagnose_failure diagnose_test_failure
  failure_lem =
      let status = c.run.row.status in
      if_lem Succeeds (same_status status cancelled) cancelled_lem (
        if_lem Succeeds (is_cleanup_only_failure c) cleanup_failed_lem (
          if_lem Succeeds (same_status status test_failed) (failed_result_lem c.failed_result) (
            if_lem Succeeds (same_status status timed_out) timeout_lem
              (if_lem Succeeds (same_status status infra_failed) infra_failure_lem internal_lem))))

pub not_passed :
    (s : TestRunStatus) → is_terminal_failure_status s ≡ true → same_status s passed ≡ false
unfolding is_terminal_failure_status same_status
not_passed s h = ground arith

-- What becomes of the diagnosis of a run that has the status.
abbrev guarded :
    TestRunStatus → Result RangeError RunDiagnosis → Result RangeError (Option RunDiagnosis)
guarded status r =
    if same_status status passed || not (is_terminal_failure_status status)
    then ok none
    else (do d ← r; ok (some d))

guarded_lem :
    (status : TestRunStatus) (r : Result RangeError RunDiagnosis)
    → Succeeds r
    → (is_terminal_failure_status status ≡ true
        → (d : RunDiagnosis) × (guarded status r ≡ ok (some d)) × IsActionable d)
      × (is_terminal_failure_status status ≡ false → guarded status r ≡ ok none)
guarded_lem status (err e) h = absurd h
guarded_lem status (ok d) h =
    (λ e. (d, rw (not_passed status e, e) refl, h), λ e. rw (e, or_true) refl)

-- If every timestamp of the run is a date, the engine does not throw, and it gives a diagnosis exactly if
-- the run has ended in a failure. The diagnosis has evidence, a suggested action, and a confidence
-- between 0.5 and 0.95.
pub diagnose_lem :
    (run : DiagnosisRun) (results : List TestResult) (previews : List LogChunkPreview)
    → IsDated run.row
    → (is_terminal_failure_status run.row.status ≡ true
        → (d : RunDiagnosis) × (diagnose run results previews ≡ ok (some d)) × IsActionable d)
      × (is_terminal_failure_status run.row.status ≡ false
          → diagnose run results previews ≡ ok none)
unfolding diagnose
diagnose_lem run results previews dated =
    guarded_lem run.row.status (diagnose_failure (build_context run results previews))
      (failure_lem (build_context run results previews) dated)
