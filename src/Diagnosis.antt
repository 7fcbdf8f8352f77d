-- ===== src/Diagnosis.antt =====
-- The diagnosis of a failed run (test-runs/failure-diagnosis/failure-diagnosis.types.ts,
-- test-runs/types/test-run-execution-metadata.types.ts, `TestResult` of prisma/schema.prisma). The child
-- modules have the context of a diagnosis, the rules, and the answer of the service to its clients.
pub mod Patterns
pub mod Context
pub mod Stringify
pub mod Evidence
pub mod Steps
pub mod Infrastructure
pub mod Health
pub mod Containers
pub mod Engine
pub mod Laws
pub mod Rules
pub mod Phases
pub mod Timeline
pub mod Marks
pub mod Chronicle
pub mod Failure
pub mod Service
pub mod Agreement
pub mod Dates
mod Tests
pub mod Details
use testing_environment.Common.{ℕ, String, Bool, Option, List}
use testing_environment.Runs.Run.{TestRun}
use testing_environment.Suites.Flow.{Json}

pub data ResultStatus : Type 0 where
  step_passed step_failed : ResultStatus

pub record TestResult : Type 0 where
  pub id : String
  pub step_id : Option String
  pub step_type : String
  pub suite_name : String
  pub test_name : String
  pub status : ResultStatus
  pub method : String
  pub path : String
  pub expected_status : ℕ
  -- `null` is `none`
  pub actual_status : Option ℕ
  pub duration_ms : ℕ
  pub error_message : Option String
  pub assertion_results : Option Json

pub data PhaseResult : Type 0 where
  phase_passed phase_failed phase_skipped not_reached : PhaseResult

pub record EnvironmentResult : Type 0 where
  pub status : PhaseResult
  pub validation_passed : Option Bool
  pub message : Option String

pub record HealthcheckResult : Type 0 where
  pub status : PhaseResult
  pub expected_status : Option ℕ
  pub actual_status : Option ℕ
  pub duration_ms : Option ℕ
  pub url : Option String
  pub message : Option String

pub record ImageReference : Type 0 where
  pub service_name : String
  pub image : String

-- `TestRunExecutionMetadata`
pub record Metadata : Type 0 where
  pub environment_result : Option EnvironmentResult
  pub healthcheck_result : Option HealthcheckResult
  pub image_references : Option (List ImageReference)
  pub uses_docker_compose : Option Bool

-- A run with its `executionMetadata`, which is `none` for null, an array or a scalar.
pub record DiagnosisRun : Type 0 where
  pub row : TestRun
  pub execution_metadata : Option Metadata

-- `RunnerLogSource`
pub data LogSource : Type 0 where
  system docker from_test from_error : LogSource

pub record LogChunkPreview : Type 0 where
  pub sequence : ℕ
  pub source : LogSource
  pub preview : String

pub data DiagnosisCategory : Type 0 where
  compose_validation_failed image_pull_failed container_exited port_conflict : DiagnosisCategory
  healthcheck_timeout dns_network_failure http_timeout unexpected_status : DiagnosisCategory
  assertion_mismatch variable_extraction_failed cancelled_run cleanup_failed : DiagnosisCategory
  internal_runner_error : DiagnosisCategory

pub data EvidenceType : Type 0 where
  test_result phase log_excerpt healthcheck environment run_field : EvidenceType

-- The one field of the reference that a piece of evidence has.
pub data EvidenceRef : Type 0 where
  to_test_result : String → EvidenceRef
  to_phase : String → EvidenceRef
  to_log_chunk : ℕ → EvidenceRef
  to_field : String → EvidenceRef

pub record DiagnosisEvidence : Type 0 where
  pub type : EvidenceType
  pub label : String
  pub detail : String
  pub ref : EvidenceRef

pub data Priority : Type 0 where
  high medium low : Priority

pub record SuggestedAction : Type 0 where
  pub id : String
  pub label : String
  pub description : String
  pub priority : Priority

-- The confidence is in hundredths.
pub record RunDiagnosis : Type 0 where
  pub category : DiagnosisCategory
  pub title : String
  pub summary : String
  pub primary_evidence : List DiagnosisEvidence
  pub related_evidence : List DiagnosisEvidence
  pub suggested_actions : List SuggestedAction
  pub confidence : ℕ

-- `toISOString` of a date that could not be parsed throws this.
pub data RangeError : Type 0 where
  invalid_time : RangeError
