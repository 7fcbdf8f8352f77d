-- ===== src/Runner.antt =====
-- The execution of the steps of a run (runner/runner-orchestrator.service.ts, runner/types/yaml-test.types.ts).
-- What is outside, which are the requests, the clock and the requests for cancellation, is a record of
-- operations on a state; the child modules have the steps, the loops and what is proved of them.
pub mod Variables
pub mod Evaluation
pub mod Responses
pub mod Messages
pub mod Loops
pub mod Passing
pub mod Endings
pub mod Execution
pub mod Records
pub mod Lifecycle
pub mod Outcomes
mod Tests
use testing_environment.Common.{
  ℕ, String, Bool, true, false, Option, none, some, List, [], ◌∷◌, if◌then◌else◌, str_eq,
}
use testing_environment.Common.Result.{Result, ok, err}
use testing_environment.Suites.Flow.{Json, RequestConfig}
use testing_environment.Diagnosis.{ResultStatus}
use testing_environment.Diagnosis.Evidence.{StoredAssertion}

-- `HttpExecutionResult`, without the headers
pub record HttpResult : Type 0 where
  pub actual_status : Option ℕ
  pub response_body : Option Json
  pub duration_ms : ℕ
  pub error_message : Option String

-- `StepExecutionResult`
pub record StepResult : Type 0 where
  pub http : HttpResult
  pub status : ResultStatus
  pub attempts : ℕ
  pub assertion_results : List StoredAssertion

-- A `Map` with texts as keys, in the order in which the keys came.
abbrev pub Store : Type 0 → Type 0
Store A = List (String × A)

module _ {A : Type 0} where
  unfoldable pub get : String → Store A → Option A
  get key [] = none
  get key ((k, v) ∷ rest) = if str_eq k key then some v else get key rest

  unfoldable pub set : String → A → Store A → Store A
  set key value [] = (key, value) ∷ []
  set key value ((k, v) ∷ rest) =
      if str_eq k key then (k, value) ∷ rest else (k, v) ∷ set key value rest

-- Why an execution stops: a cancellation, or the loss of the lease or another error with a message.
pub data Interruption : Type 0 where
  run_cancelled : Interruption
  run_error : String → Interruption

-- `stuck` is a loop that has used up its fuel.
pub data Stop : Type 0 where
  interrupted : Interruption → Stop
  stuck : Stop

-- What the runner calls: `http.execute`, `Date.now()`, `ensureNotCancelled` and `setTimeout`.
pub record Outside (W : Type 0) : Type 0 where
  pub send : RequestConfig → W → HttpResult × W
  pub clock : W → ℕ
  pub interruption : W → Option Interruption × W
  pub pause : ℕ → W → W

abbrev pub Exec : Type 0 → Type 0 → Type 0
Exec W A = W → Result Stop A × W

module _ {W A B : Type 0} where
  abbrev pub continue : Result Stop A × W → (A → Exec W B) → Result Stop B × W
  continue (ok a, w) f = f a w
  continue (err e, w) f = (err e, w)

  infixl 5 ◌>>=◌ ◌>>◌
  unfoldable pub ◌>>=◌ : Exec W A → (A → Exec W B) → Exec W B
  ◌>>=◌ m f w = continue (m w) f

  abbrev pub ◌>>◌ : Exec W A → Exec W B → Exec W B
  m >> n = m >>= λ _. n

module _ {W : Type 0} where
  unfoldable pub pure : {A : Type 0} → A → Exec W A
  pure a w = (ok a, w)

  unfoldable pub fail : {A : Type 0} → Stop → Exec W A
  fail e w = (err e, w)
