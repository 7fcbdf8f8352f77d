-- ===== src/Runner/Responses.antt =====
-- When a step passes on a response, what it saves, and that it says why it fails.
use testing_environment.Common.{
  ℕ, String, ◌≡◌, ◌↔◌, refl, sym, ◌∙◌, inl, inr, Bool, true, false, not, ◌&&◌, Option, none, some,
  List, [], ◌∷◌, All, arith, Bool-cases, or_else, or_try, is_some, if◌then◌else◌, str_eq, ap,
  if_lem, str_eq_iff,
}
use testing_environment.Suites.Flow.{Json, RequestConfig}
use testing_environment.Assertions.{YamlAssertion, Failure, evaluate_assertions, first_failure}
use testing_environment.Assertions.Laws.{IsMet, evaluate_assertions_iff}
use testing_environment.Diagnosis.{step_passed, step_failed}
use testing_environment.Diagnosis.Infrastructure.{is_given}
use testing_environment.Runner.{HttpResult, Store, get, set}
use testing_environment.Runner.Evaluation.{
  evaluate_body, body_matches, is_status, assertions_on, has_passed, step_result,
  evaluate_request_result, read_path, put_value, save_variables,
}

-- An assertion is met by a body; a body that is `undefined` meets none.
abbrev pub IsMetBy : Option Json → YamlAssertion → Type 0
IsMetBy none a = ⊥
IsMetBy (some body) a = IsMet body a

-- The response is one that the request expects.
abbrev pub IsExpected : HttpResult → RequestConfig → Type 0
IsExpected result request =
    (is_given result.error_message ≡ false)
    × (result.actual_status ≡ some request.expect.status)
    × (body_matches result.response_body request.expect.json_contains ≡ true)
    × All (IsMetBy result.response_body) (assertions_on request)

body_iff :
    (body : Option Json) (assertions : List YamlAssertion)
    → (first_failure (evaluate_body body assertions) ≡ none) ↔ All (IsMetBy body) assertions
unfolding evaluate_body evaluate_assertions
body_iff none [] = (λ h. tt, λ h. refl)
body_iff none (a ∷ rest) = (λ h. ground arith, λ h. absurd h.0)
body_iff (some body) assertions = evaluate_assertions_iff body (some assertions)

is_status_iff :
    (actual : Option ℕ) (expected : ℕ)
    → (is_status actual expected ≡ true) ↔ (actual ≡ some expected)
is_status_iff none expected = (λ h. ground arith, λ h. ground arith)
is_status_iff (some n) expected = ground arith

all_of :
    (a b c d : Bool)
    → (not a && b && c && not d ≡ true) ↔ ((a ≡ false) × (b ≡ true) × (c ≡ true) × (d ≡ false))
all_of a b c d = ground arith

none_iff : (f : Option Failure) → (is_some f ≡ false) ↔ (f ≡ none)
none_iff none = (λ h. refl, λ h. refl)
none_iff (some f) = (λ h. ground arith, λ h. ground arith)

status_iff : (b : Bool) → ((if b then step_passed else step_failed) ≡ step_passed) ↔ (b ≡ true)
status_iff true = (λ h. refl, λ h. refl)
status_iff false = (λ h. ground arith, λ h. ground arith)

has_passed_iff :
    (result : HttpResult) (request : RequestConfig)
    → (has_passed result request ≡ true) ↔ IsExpected result request
unfolding has_passed
has_passed_iff result request =
    let failure = first_failure (evaluate_body result.response_body (assertions_on request)) in
    let (forth, back) =
      all_of (is_given result.error_message) (is_status result.actual_status request.expect.status)
        (body_matches result.response_body request.expect.json_contains) (is_some failure) in
    let status = is_status_iff result.actual_status request.expect.status in
    let body = body_iff result.response_body (assertions_on request) in
    (
      λ h. let (e, s, b, f) = forth h in (e, status.0 s, b, body.0 ((none_iff failure).0 f)),
      λ (e, s, b, f). back (e, status.1 s, b, (none_iff failure).1 (body.1 f)),
    )

-- A step passes on a response exactly if there was no error, the status is the expected one, the body
-- contains what it is expected to, and every assertion is met.
pub evaluate_request_result_iff :
    (result : HttpResult) (request : RequestConfig) (store : Store String) (attempts : ℕ)
    → ((evaluate_request_result result request store attempts).0.status ≡ step_passed)
      ↔ IsExpected result request
unfolding evaluate_request_result step_result
evaluate_request_result_iff result request store attempts =
    let (a, b) = status_iff (has_passed result request) in
    let (c, d) = has_passed_iff result request in (λ h. c (a h), λ h. b (d h))

-- The value that a step saves in a variable: that of the last path with its name that leads to one.
unfoldable pub saved_value : String → Option Json → List (String × String) → Option String
saved_value x body [] = none
saved_value x body ((key, path) ∷ rest) =
    or_try (saved_value x body rest) (if str_eq key x then read_path body path else none)

twice :
    (b : Bool) (u v w : Option String)
    → (if b then u else w) ≡ (if b then u else if b then v else w)
twice true u v w = refl
twice false u v w = refl

chosen :
    (b : Bool) (v : String) (o : Option String)
    → (if b then some v else o) ≡ or_try (if b then some v else none) o
chosen true v o = refl
chosen false v o = refl

-- Of two keys that differ, the one is not another text that the other is.
other : (k key x : String) → str_eq k key ≡ false → str_eq k x ≡ true → str_eq key x ≡ false
other k key x p q = elim (Bool-cases (str_eq key x)) [
  | inl r ↦
      let a : k ≡ x = (str_eq_iff k x).0 q in
      let b : key ≡ x = (str_eq_iff key x).0 r in
      absurd (ground (arith, p, (str_eq_iff k key).1 (a ∙ sym b)))
  | inr r ↦ r
]

get-set :
    (x key value : String) (store : Store String)
    → get x (set key value store) ≡ (if str_eq key x then some value else get x store)
unfolding get set
get-set x key value [] = refl
get-set x key value ((k, v) ∷ rest) = elim (Bool-cases (str_eq k key)) [
  | inl p ↦
      let same : k ≡ key = (str_eq_iff k key).0 p in
      rw (p, ← same) (twice (str_eq k x) (some value) (some v) (get x rest))
  | inr p ↦ rw p (elim (Bool-cases (str_eq k x)) [
    | inl q ↦ rw (q, other k key x p q) refl
    | inr q ↦ rw q (get-set x key value rest)
  ])
]

get-put_value :
    (x key : String) (value : Option String) (store : Store String)
    → get x (put_value key value store)
      ≡ or_try (if str_eq key x then value else none) (get x store)
unfolding put_value
get-put_value x key none store =
    if_lem (λ o. get x store ≡ or_try o (get x store)) (str_eq key x) refl refl
get-put_value x key (some value) store =
    get-set x key value store ∙ chosen (str_eq key x) value (get x store)

or_try_assoc : (a b c : Option String) → or_try a (or_try b c) ≡ or_try (or_try a b) c
or_try_assoc none b c = refl
or_try_assoc (some x) b c = refl

get-save_variables :
    (x : String) (body : Option Json) (save : List (String × String)) (store : Store String)
    → get x (save_variables body save store) ≡ or_try (saved_value x body save) (get x store)
unfolding save_variables saved_value
get-save_variables x body [] store = refl
get-save_variables x body ((key, path) ∷ rest) store =
    get-save_variables x body rest (put_value key (read_path body path) store)
    ∙ ap (or_try (saved_value x body rest)) (get-put_value x key (read_path body path) store)
    ∙ or_try_assoc (saved_value x body rest) _ (get x store)

-- A step that passes leaves in each variable the value that it saves there, and what was there before if
-- it saves none; a step that fails leaves all variables as they were.
pub get-evaluate_request_result :
    (result : HttpResult) (request : RequestConfig) (store : Store String) (attempts : ℕ)
    (x : String)
    → ((evaluate_request_result result request store attempts).0.status ≡ step_passed
        → get x (evaluate_request_result result request store attempts).1
          ≡ or_try (saved_value x result.response_body (or_else request.save [])) (get x store))
      × ((evaluate_request_result result request store attempts).0.status ≡ step_failed
          → (evaluate_request_result result request store attempts).1 ≡ store)
unfolding evaluate_request_result step_result
get-evaluate_request_result result request store attempts x =
    elim (Bool-cases (has_passed result request)) [
      | inl p ↦ rw p (
        λ h. get-save_variables x result.response_body (or_else request.save []) store,
        λ h. ground arith,
      )
      | inr p ↦ rw p (λ h. ground arith, λ h. refl)
    ]
