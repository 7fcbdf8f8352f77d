-- ===== src/Runner/Endings.antt =====
-- The polls of the runner end, and a poll that fails has used up its time.
use testing_environment.Common.{
  ℕ, zero, suc, ◌+◌, ◌-◌, ◌≤◌, ◌<◌, ◌≡◌, refl, inl, inr, String, true, false, Option, none, some,
  arith, leb, Bool-cases, leb→le,
}
use testing_environment.Suites.Flow.{RequestConfig}
use testing_environment.Diagnosis.{ResultStatus, step_passed, step_failed}
use testing_environment.Runner.{HttpResult, StepResult, Store, Outside, Exec, ◌>>=◌, pure}
use testing_environment.Runner.Variables.{interpolate_request}
use testing_environment.Runner.Evaluation.{evaluate_request_result}
use testing_environment.Runner.Responses.{IsExpected, evaluate_request_result_iff}
use testing_environment.Runner.Loops.{
  now, ensure_not_cancelled, sleep, http_execute, poll, execute_poll, conclude, timed_out, in_time,
  has_step_passed, min,
}
use testing_environment.Runner.Passing.{
  Passes, Leads, still, Leads-trans, Ends, bind-Ends, From, ensure_lem, sleep_lem, Came, http_lem,
}

module _ {W : Type 0} (O : Outside W) (T : Passes O) where
  passed_lem : (status : ResultStatus) → has_step_passed status ≡ true → status ≡ step_passed
  passed_lem step_passed h = refl
  passed_lem step_failed h = absurd (ground (arith, h))

  late_lem : (timeout elapsed : ℕ) → leb elapsed timeout ≡ false → timeout < elapsed
  late_lem timeout elapsed h = ground arith

  module _ (secrets : Store String) (definition : RequestConfig) where
    -- The execution has got from the state `from` to one in which it sent the request, with the variables of that moment,
    -- the response was the expected one, and from there it has got to the state `w`.
    abbrev pub Answered : W → W → Type 0
    Answered from w =
        (store : Store String) × (v : W) × let request =
            interpolate_request store secrets definition in
          let (result, u) = O.send (interpolate_request store secrets request) v in
          Leads O from v × Leads O u w × IsExpected result request

    -- A poll passes on an expected response, and fails when its time is up.
    abbrev pub IsPolled : W → ℕ → ℕ → StepResult × Store String → W → Type 0
    IsPolled from started timeout r w =
        (r.0.status ≡ step_passed → Answered from w)
        × (r.0.status ≡ step_failed → timeout < O.clock w - started)

    module _ (from : W) (timeout interval started : ℕ) (message : Option String) where
      polled_lem :
          (started' : ℕ) (step : StepResult) (store : Store String) (w : W)
          → step.status ≡ step_passed
          → Answered from w
          → IsPolled from started timeout (in_time started' step, store) w
      polled_lem started' step store w p a = (λ _. a, λ f. absurd (ground (arith, p, f)))

      conclude_lem :
          (e : StepResult × Store String) (w : W) (again : Exec W (StepResult × Store String))
          → (e.0.status ≡ step_passed → Answered from w)
          → ((v : W)
              → O.clock w ≤ O.clock v
              → Leads O w v
              → Ends (IsPolled from started timeout) (again v))
          → Ends
              (IsPolled from started timeout)
              (conclude O secrets definition timeout interval started message e (O.clock w) again w)
      unfolding conclude pure
      conclude_lem e w again a k = elim (Bool-cases (has_step_passed e.0.status)) [
        | inl r ↦
            let s = passed_lem e.0.status r in
            rw r (polled_lem (O.clock w - started) e.0 e.1 w s (a s))
        | inr r ↦ rw r (
            bind-Ends (From O T w (O.clock w)) (IsPolled from started timeout)
              (sleep O (min interval (timeout - (O.clock w - started)))) (λ _. again) w
              (sleep_lem O T _ w) (λ _ v o. k v o.0 o.1))
      ]

      -- The response that a turn got, if the step passes on it.
      answered_lem :
          (store : Store String) (v u w : W) (result : HttpResult) (attempts : ℕ)
          → Leads O from v
          → Came O T
              (interpolate_request store secrets (interpolate_request store secrets definition))
              v
              result
              u
          → Leads O u w
          → (evaluate_request_result result
              (interpolate_request store secrets definition)
              store
              attempts).0.status
            ≡ step_passed
          → Answered from w
      answered_lem store v u w result attempts l m n s =
          let request = interpolate_request store secrets definition in
          let expected : IsExpected result request =
            (evaluate_request_result_iff result request store attempts).0 s in
          let after : Leads O (O.send (interpolate_request store secrets request) v).1 w =
            rw m.1 at n in
          let came : IsExpected (O.send (interpolate_request store secrets request) v).0 request =
            rw m.0 at expected in
          (store, v, (l, after, came))

      poll_lem :
          (fuel attempts : ℕ) (last : Option StepResult) (store : Store String) (w : W)
          → 1 ≤ fuel
          → started + timeout + 1 < O.clock w + fuel
          → Leads O from w
          → Ends (IsPolled from started timeout) (
              poll O secrets definition timeout interval started message fuel attempts last store w)
      unfolding poll pure now ◌>>=◌ timed_out
      poll_lem zero attempts last store w p h l = absurd (omega (arith, p))
      poll_lem (suc fuel) attempts last store w p h l =
          elim (Bool-cases (leb (O.clock w - started) timeout)) [
            | inr q ↦
                rw q
                  (λ f. absurd (ground (arith, f)), λ _. late_lem timeout (O.clock w - started) q)
            | inl q ↦
                let request = interpolate_request store secrets definition in
                let sending = interpolate_request store secrets request in
                let b = leb→le (O.clock w - started) timeout q in
                rw q (
                  bind-Ends (From O T w (O.clock w)) (IsPolled from started timeout)
                    (ensure_not_cancelled O) _ w (ensure_lem O T w)
                    (λ _ v k.
                      bind-Ends (Came O T sending v) (IsPolled from started timeout)
                        (http_execute O secrets request store) _ v
                        (http_lem O T secrets request store v)
                        (λ result u m.
                          bind-Ends (From O T u (O.clock u)) (IsPolled from started timeout)
                            (ensure_not_cancelled O) _ u (ensure_lem O T u)
                            (λ _ x n.
                              let e = evaluate_request_result result request store (suc attempts) in
                              conclude_lem e x
                                (poll O secrets definition timeout interval started message fuel
                                  (suc attempts) (some e.0) e.1)
                                (answered_lem store v u x result (suc attempts) (Leads-trans l k.1)
                                  m n.1)
                                (λ y o t.
                                  poll_lem fuel (suc attempts) (some e.0) e.1 y
                                    (omega (arith, b, h)) (omega (arith, b, h, k.0, m.2, n.0, o))
                                    (Leads-trans l
                                      (Leads-trans k.1 (Leads-trans m.3 (Leads-trans n.1 t)))))))))
          ]

-- If time passes, a poll ends. It passes only if it got, by calls of what is outside, to a state in which it sent its
-- request and the response was the expected one, and from there to the state in which it ends; it fails only when more
-- time than its timeout has passed. It may be interrupted, but its fuel suffices.
pub execute_poll_lem :
    {W : Type 0} (O : Outside W) (T : Passes O) (secrets : Store String)
    (definition : RequestConfig) (timeout interval : ℕ) (message : Option String)
    (store : Store String) (w : W)
    → Ends
        (IsPolled O T secrets definition w (O.clock w) timeout)
        (execute_poll O secrets definition timeout interval message store w)
unfolding execute_poll now ◌>>=◌
execute_poll_lem O T secrets definition timeout interval message store w =
    poll_lem O T secrets definition w timeout interval (O.clock w) message (suc (suc timeout)) 0
      none store w (omega arith) (omega arith) still
