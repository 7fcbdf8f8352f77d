-- ===== src/Runner/Messages.antt =====
-- A step that fails says why.
use testing_environment.Common.{
  ℕ, String, ◌≡◌, ◌⊎◌, refl, inl, inr, Bool, true, false, not, ◌&&◌, Option, none, some, arith,
  or_try, is_some, if◌then◌else◌,
}
use testing_environment.Suites.Flow.{Json, RequestConfig}
use testing_environment.Assertions.{Failure, first_failure}
use testing_environment.Diagnosis.{step_passed, step_failed}
use testing_environment.Diagnosis.Evidence.{truthy}
use testing_environment.Diagnosis.Infrastructure.{is_given}
use testing_environment.Runner.{HttpResult, Store}
use testing_environment.Runner.Evaluation.{
  evaluate_body, body_matches, is_status, assertions_on, has_passed, step_result, status_assertion,
  body_assertion, message_of, text_of_failure, evaluate_request_result,
}

later_lem : (a b c : Option String) → is_some b ≡ true → is_some (or_try a (or_try b c)) ≡ true
later_lem none (some b) c h = refl
later_lem none none c h = absurd (ground (arith, h))
later_lem (some a) b c h = refl

last_lem : (a b c : Option String) → is_some c ≡ true → is_some (or_try a (or_try b c)) ≡ true
last_lem none none c h = h
last_lem none (some b) c h = refl
last_lem (some a) b c h = refl

first_lem : (a b : Option String) → is_some a ≡ true → is_some (or_try a b) ≡ true
first_lem (some a) b h = refl
first_lem none b h = absurd (ground (arith, h))

second_lem : (a b : Option String) → is_some b ≡ true → is_some (or_try a b) ≡ true
second_lem none b h = h
second_lem (some a) b h = refl

failed_lem : (b : Bool) → (if b then step_passed else step_failed) ≡ step_failed → b ≡ false
failed_lem true h = absurd (ground (arith, h))
failed_lem false h = refl

status_lem :
    (result : HttpResult) (expected : ℕ)
    → is_status result.actual_status expected ≡ false
    → is_some (status_assertion result expected).message ≡ true
unfolding status_assertion
status_lem result expected h = rw h refl

body_lem :
    (result : HttpResult) (expected : Option Json)
    → truthy expected ≡ true
    → body_matches result.response_body expected ≡ false
    → is_some (message_of (body_assertion result expected)) ≡ true
unfolding body_assertion
body_lem result expected t h = rw (t, h) refl

failure_lem : (f : Option Failure) → is_some f ≡ true → is_some (text_of_failure f) ≡ true
failure_lem (some f) h = refl
failure_lem none h = absurd (ground (arith, h))

reason :
    (a b c d : Bool)
    → not a && b && c && not d ≡ false
    → (a ≡ true) ⊎ (b ≡ false) ⊎ (c ≡ false) ⊎ (d ≡ true)
reason a b c d h = ground arith

given_lem : (m : Option String) → is_given m ≡ true → is_some m ≡ true
given_lem (some m) h = refl
given_lem none h = absurd (ground (arith, h))

expected_lem :
    (body expected : Option Json)
    → (expected ≡ none) ⊎ (truthy expected ≡ true)
    → body_matches body expected ≡ false
    → truthy expected ≡ true
unfolding body_matches
expected_lem body expected (inl e) h = absurd (ground (arith, rw e at h))
expected_lem body expected (inr t) h = t

reasons :
    (result : HttpResult) (request : RequestConfig)
    → has_passed result request ≡ false
    → (is_given result.error_message ≡ true)
      ⊎ (is_status result.actual_status request.expect.status ≡ false)
      ⊎ (body_matches result.response_body request.expect.json_contains ≡ false)
      ⊎ (is_some (first_failure (evaluate_body result.response_body (assertions_on request)))
          ≡ true)
unfolding has_passed
reasons result request h = reason _ _ _ _ h

-- A step that fails on a response has a message, unless the body is expected to contain a false value, which is
-- compared without one.
pub error_message-evaluate_request_result :
    (result : HttpResult) (request : RequestConfig) (store : Store String) (attempts : ℕ)
    → (request.expect.json_contains ≡ none) ⊎ (truthy request.expect.json_contains ≡ true)
    → (evaluate_request_result result request store attempts).0.status ≡ step_failed
    → is_some (evaluate_request_result result request store attempts).0.http.error_message ≡ true
unfolding evaluate_request_result step_result
error_message-evaluate_request_result result request store attempts truth failed =
    let status = status_assertion result request.expect.status in
    let body = body_assertion result request.expect.json_contains in
    let failure = first_failure (evaluate_body result.response_body (assertions_on request)) in
    let later = or_try (message_of body) (text_of_failure failure) in
    let unmet : has_passed result request ≡ false = failed_lem (has_passed result request) failed in
    elim (reasons result request unmet) [
      | inl g ↦ first_lem result.error_message (or_try status.message later) (given_lem _ g)
      | inr (inl s) ↦ later_lem result.error_message status.message later (status_lem result _ s)
      | inr (inr (inl b)) ↦ last_lem result.error_message status.message later (
          first_lem (message_of body) (text_of_failure failure)
            (body_lem result _ (expected_lem result.response_body _ truth b) b))
      | inr (inr (inr f)) ↦
          last_lem result.error_message status.message later
            (second_lem (message_of body) (text_of_failure failure) (failure_lem failure f))
    ]
