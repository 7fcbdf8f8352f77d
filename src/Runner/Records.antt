-- ===== src/Runner/Records.antt =====
-- What an execution of the suites leaves: a result for each step in its order, and counts that agree with them.
use testing_environment.Common.{
  ℕ, ◌+◌, ◌≡◌, refl, sym, ◌∙◌, ap, String, Bool, true, false, Option, some, List, [], ◌∷◌, ◌++◌,
  map, arith, length, length-append, if◌then◌else◌,
}
use testing_environment.Common.Result.{Result, ok, err}
use mathlib.Core.List.{append_assoc, append-nil, map-append}
use testing_environment.Suites.Flow.{
  StepConfig, api_request, wait, poll_until, set_variable, assert, ExecutionStep, ExecutionPlan,
}
use testing_environment.Diagnosis.{TestResult}
use testing_environment.Runner.{
  StepResult, Store, Stop, interrupted, stuck, Outside, ◌>>=◌, ◌>>◌, pure, continue,
}
use testing_environment.Runner.Variables.{interpolate_request}
use testing_environment.Runner.Evaluation.{evaluate_request_result}
use testing_environment.Runner.Loops.{
  now, sleep, http_execute, execute_wait, execute_request, ensure_not_cancelled, has_step_passed,
}
use testing_environment.Runner.Passing.{
  Passes, Ends, bind-Ends, From, Came, ensure_lem, sleep_lem, http_lem,
}
use testing_environment.Runner.Endings.{execute_poll_lem}
use testing_environment.Runner.Execution.{
  Execution, Recording, nothing_yet, ms_of, counted, recorded, test_result_of, execute_step,
  execute_steps, execute_plans, execute_suites,
}

-- How many of the results passed, or failed.
abbrev pub with_status : Bool → List TestResult → ℕ
with_status true [] = 0
with_status true (r ∷ rs) = (if has_step_passed r.status then 1 else 0) + with_status true rs
with_status false [] = 0
with_status false (r ∷ rs) = (if has_step_passed r.status then 0 else 1) + with_status false rs

with_status-append :
    (b : Bool) (xs ys : List TestResult)
    → with_status b (xs ++ ys) ≡ with_status b xs + with_status b ys
with_status-append true [] ys = omega arith
with_status-append true (x ∷ xs) ys = omega (arith, with_status-append true xs ys)
with_status-append false [] ys = omega arith
with_status-append false (x ∷ xs) ys = omega (arith, with_status-append false xs ys)

-- The counts are those of the results.
abbrev pub IsTallied : Execution → Type 0
IsTallied e =
    (e.stats.total_tests ≡ length e.results)
    × (e.stats.passed_tests ≡ with_status true e.results)
    × (e.stats.failed_tests ≡ with_status false e.results)

abbrev pub step_ids : List TestResult → List (Option String)
step_ids rs = map (λ r. r.step_id) rs

abbrev pub ids_of : List ExecutionStep → List (Option String)
ids_of steps = map (λ s. some s.id) steps

-- The results are those of these steps.
abbrev pub IsRecord : List ExecutionStep → Execution → Type 0
IsRecord steps e = (step_ids e.results ≡ ids_of steps) × IsTallied e

abbrev pub all_steps : List ExecutionPlan → List ExecutionStep
all_steps [] = []
all_steps (plan ∷ rest) = plan.steps ++ all_steps rest

recorded_lem :
    (R : Recording) (suite : String) (before : List ExecutionStep) (step : ExecutionStep)
    (e : Execution) (result : StepResult × Store String)
    → IsRecord before e
    → IsRecord (before ++ step ∷ []) (recorded R suite step e result)
unfolding recorded counted test_result_of
recorded_lem R suite before step e (result, variables) (i, (t, p, f)) =
    let row : TestResult = test_result_of R suite step e.stats.total_tests result in
    (
      map-append (λ r. r.step_id) e.results (row ∷ [])
          ∙ ap (λ ids. ids ++ some step.id ∷ []) i
          ∙ sym (map-append (λ s. some s.id) before (step ∷ [])),
      (
        omega (arith, length-append e.results (row ∷ []), t),
        omega (arith, with_status-append true e.results (row ∷ []), p),
        omega (arith, with_status-append false e.results (row ∷ []), f),
      ),
    )

sum_lem : (rs : List TestResult) → with_status true rs + with_status false rs ≡ length rs
sum_lem [] = omega arith
sum_lem (r ∷ rs) = omega (arith, sum_lem rs, one (has_step_passed r.status))
  where
    one : (b : Bool) → (if b then 1 else 0) + (if b then 0 else 1) ≡ 1
    one true = omega arith
    one false = omega arith

strengthen :
    {W : Type 0} (steps : List ExecutionStep) (r : Result Stop Execution × W)
    → Ends (λ e _. IsRecord steps e) r
    → Ends
        (λ e _.
          IsRecord steps e × (e.stats.passed_tests + e.stats.failed_tests ≡ e.stats.total_tests))
        r
strengthen steps (ok e, w) h = (h, omega (arith, sum_lem e.results, h.1.0, h.1.1, h.1.2))
strengthen steps (err (interrupted i), w) h = tt
strengthen steps (err stuck, w) h = h

weaken :
    {W A : Type 0} (P : A → W → Type 0) (r : Result Stop A × W)
    → Ends P r
    → Ends (λ _ _. Unit {0}) r
weaken P (ok a, w) h = tt
weaken P (err (interrupted i), w) h = tt
weaken P (err stuck, w) h = h

module _ {W : Type 0} (O : Outside W) (T : Passes O) (secrets : Store String) (R : Recording) where
  abbrev Anything : {A : Type 0} → A → W → Type 0
  Anything a w = Unit

  done :
      {A B : Type 0} (P : A → W → Type 0) (r : Result Stop A × W) (f : A → W → B)
      → Ends P r
      → Ends Anything (continue r (λ a v. (ok (f a v), v)))
  done P (ok a, v) f h = tt
  done P (err (interrupted i), v) f h = tt
  done P (err stuck, v) f h = h

  execute_wait_lem : (duration : ℕ) (w : W) → Ends Anything (execute_wait O duration w)
  unfolding execute_wait pure now ◌>>=◌
  execute_wait_lem duration w =
      done (From O T w (O.clock w)) (sleep O duration w) (λ _ v. _) (sleep_lem O T duration w)

  execute_step_lem :
      (config : StepConfig) (e : Execution) (w : W)
      → Ends Anything (execute_step O secrets R config e w)
  unfolding execute_step execute_request pure
  execute_step_lem (wait duration) e w =
      bind-Ends Anything Anything (execute_wait O (ms_of duration)) _ w
        (execute_wait_lem (ms_of duration) w) (λ _ v h. tt)
  execute_step_lem (poll_until request limit interval message) e w =
      weaken _ _
        (execute_poll_lem O T secrets request (ms_of limit) (ms_of interval) message e.variables w)
  execute_step_lem (set_variable name value source path) e w = tt
  execute_step_lem (assert source path op expected) e w = tt
  execute_step_lem (api_request request) e w =
      let sent = interpolate_request e.variables secrets request in
      bind-Ends {B = StepResult × Store String}
        (Came O T (interpolate_request e.variables secrets sent) w) Anything
        (http_execute O secrets sent e.variables)
        (λ result.
          ensure_not_cancelled O >> pure (evaluate_request_result result sent e.variables 1))
        w (http_lem O T secrets sent e.variables w)
        (λ result v h.
          bind-Ends {B = StepResult × Store String} (From O T v (O.clock v)) Anything
            (ensure_not_cancelled O) (λ _. pure (evaluate_request_result result sent e.variables 1))
            v (ensure_lem O T v) (λ _ u k. tt))

  -- The results so far and those of the steps.
  execute_steps_lem :
      (suite : String) (steps before : List ExecutionStep) (e : Execution) (w : W)
      → IsRecord before e
      → Ends (λ e' _. IsRecord (before ++ steps) e') (execute_steps O secrets R suite steps e w)
  unfolding execute_steps pure
  execute_steps_lem suite [] before e w h = rw append-nil h
  execute_steps_lem suite (step ∷ rest) before e w h =
      bind-Ends (From O T w (O.clock w)) (λ e' _. IsRecord (before ++ step ∷ rest) e')
        (ensure_not_cancelled O) _ w (ensure_lem O T w)
        (λ _ v k.
          bind-Ends Anything (λ e' _. IsRecord (before ++ step ∷ rest) e')
            (execute_step O secrets R step.config e)
            (λ result. execute_steps O secrets R suite rest (recorded R suite step e result)) v
            (execute_step_lem step.config e v)
            (λ result u m. rw (append_assoc before (step ∷ []) rest) at (
              execute_steps_lem suite rest (before ++ step ∷ []) (recorded R suite step e result) u
                (recorded_lem R suite before step e result h))))

  execute_plans_lem :
      (plans : List ExecutionPlan) (before : List ExecutionStep) (e : Execution) (w : W)
      → IsRecord before e
      → Ends (λ e' _. IsRecord (before ++ all_steps plans) e') (execute_plans O secrets R plans e w)
  unfolding execute_plans pure
  execute_plans_lem [] before e w h = rw append-nil h
  execute_plans_lem (plan ∷ rest) before e w h =
      bind-Ends (λ e' _. IsRecord (before ++ plan.steps) e')
        (λ e' _. IsRecord (before ++ (plan.steps ++ all_steps rest)) e')
        (execute_steps O secrets R plan.suite_name plan.steps e) (execute_plans O secrets R rest) w
        (execute_steps_lem plan.suite_name plan.steps before e w h)
        (λ e' v k.
          rw (append_assoc before plan.steps (all_steps rest)) at
            (execute_plans_lem rest (before ++ plan.steps) e' v k))

-- If time passes, the execution of the suites ends. Unless it is interrupted, it leaves one result for each step of
-- each suite, in their order and whatever fails, and its counts are those of the results, so that those
-- that passed and those that failed make up the total.
pub execute_suites_lem :
    {W : Type 0} (O : Outside W) (T : Passes O) (secrets : Store String) (R : Recording)
    (plans : List ExecutionPlan) (w : W)
    → Ends
        (λ e _.
          IsRecord (all_steps plans) e
          × (e.stats.passed_tests + e.stats.failed_tests ≡ e.stats.total_tests))
        (execute_suites O secrets R plans w)
unfolding execute_suites
execute_suites_lem O T secrets R plans w =
    strengthen (all_steps plans) (execute_plans O secrets R plans nothing_yet w)
      (execute_plans_lem O T secrets R plans [] nothing_yet w (refl, (refl, refl, refl)))
