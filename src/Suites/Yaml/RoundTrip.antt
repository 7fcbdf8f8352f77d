-- ===== src/Suites/Yaml/RoundTrip.antt =====
-- A step that was imported from YAML is imported again from what it is exported as.
use testing_environment.Common.{
  ◌&&◌, ◌+◌, ℕ, String, Bool, true, false, Option, none, some, if◌then◌else◌, Bool-cases, ◌≡◌, refl,
  ◌∙◌, inl, inr, arith, subst, ltb,
}
use testing_environment.Common.Result.{ok, Returns}
use testing_environment.Common.Text.{show, trim, is_blank}
use testing_environment.Common.Text.Trimming.{
  trim-trim, is_blank-trim, starts-IsTight, append-IsTight, show-IsTight,
}
use testing_environment.Suites.Flow.{
  Number, whole, below_zero, not_finite, StepConfig, api_request, wait, poll_until, set_variable,
  assert, ExecutionStep, RetryPolicy,
}
use testing_environment.Suites.Validation.{is_positive, is_true}
use testing_environment.Suites.Steps.{not_empty}
use testing_environment.Suites.Compiler.{non_negative_number}
use testing_environment.Suites.Yaml.{
  RawYamlStep, RawRetryPolicy, to_config, to_execution_step, trimmed_or, numbered, positive_or,
  to_retry_policy, version_of, timeout_of, non_negative_or, attempts_of, backoff_of,
}
use testing_environment.Suites.Yaml.Export.{
  with_config, to_yaml_step, base_of, to_raw_retry_policy, is_number,
}
use testing_environment.Suites.Yaml.Configs.{
  KeepsSpace, then-Returns, positive_or_lem, IsConfigImported, to_config-IsConfigImported,
  to_config_again,
}
use testing_environment.Suites.Yaml.Cleaning.{present_text}

-- A text that is not blank and is trimmed.
IsNeat : String → Type 0
IsNeat s = (is_blank s ≡ false) × (trim s ≡ s)

trimmed_or_lem :
    (o : Option String) (fallback : String) → IsNeat fallback → IsNeat (trimmed_or o fallback)
unfolding IsNeat trimmed_or
trimmed_or_lem none fallback h = h
trimmed_or_lem (some s) fallback h = elim (Bool-cases (is_blank s)) [
  | inl e ↦ rw e h
  | inr e ↦ rw e (is_blank-trim s ∙ e, trim-trim s)
]

trimmed_or_again : (s fallback : String) → IsNeat s → trimmed_or (not_empty (some s)) fallback ≡ s
unfolding IsNeat trimmed_or
trimmed_or_again s fallback (b, t) = rw (present_text s b) (rw b t)

IsRetryImported : RetryPolicy → Type 0
IsRetryImported p =
    (is_positive p.max_attempts ≡ true)
    × (non_negative_number p.backoff_ms (whole 0) ≡ p.backoff_ms)

non_negative_lem :
    (n : Option Number)
    → non_negative_number (non_negative_or n (whole 0)) (whole 0) ≡ non_negative_or n (whole 0)
non_negative_lem none = refl
non_negative_lem (some (whole n)) = refl
non_negative_lem (some (below_zero n)) = refl
non_negative_lem (some not_finite) = refl

to_retry_policy_lem : (p : Option RawRetryPolicy) → IsRetryImported (to_retry_policy p)
unfolding IsRetryImported
to_retry_policy_lem p =
    (positive_or_lem (attempts_of p) (whole 1) refl, non_negative_lem (backoff_of p))

is_number_lem : (n : ℕ) (x : Number) → is_number n x ≡ true → whole n ≡ x
is_number_lem n (whole m) h = ground arith
is_number_lem n (below_zero m) h = cc
is_number_lem n not_finite h = cc

both : (a b : Bool) → a && b ≡ true → (a ≡ true) × (b ≡ true)
both true true h = (refl, refl)
both true false h = cc
both false b h = cc

to_retry_policy_again :
    (p : RetryPolicy) → IsRetryImported p → to_retry_policy (to_raw_retry_policy p) ≡ p
unfolding IsRetryImported to_raw_retry_policy
to_retry_policy_again p (a, b) =
    elim (Bool-cases (is_number 1 p.max_attempts && is_number 0 p.backoff_ms)) [
      | inr e ↦ rw e (rw a (rw b refl))
      | inl e ↦
          let (x, y) = both (is_number 1 p.max_attempts) (is_number 0 p.backoff_ms) e in
          rw e (rw (is_number_lem 1 p.max_attempts x) (rw (is_number_lem 0 p.backoff_ms y) refl))
    ]

numbered_lem : (n : ℕ) → IsNeat (numbered n)
unfolding numbered IsNeat
numbered_lem n = starts-IsTight "s" "tep-" _ refl (
    append-IsTight (if ltb (n + 1) 10 then "00" else if ltb (n + 1) 100 then "0" else "")
      (show (n + 1)) (show-IsTight (n + 1)))

is_true_again : (b : Bool) → is_true (if b then some true else none) ≡ b
is_true_again true = refl
is_true_again false = refl

module _ (upper : String → String) (U : KeepsSpace upper) where
  timeout_lem :
      (c : StepConfig) (n : Number)
      → IsConfigImported upper U c
      → is_positive n ≡ true
      → (is_positive (timeout_of c n) ≡ true) × (timeout_of c (timeout_of c n) ≡ timeout_of c n)
  unfolding IsConfigImported
  timeout_lem (wait d) n h k = (k, refl)
  timeout_lem (poll_until request timeout interval message) n (i, t, x, y, z) k = (t, refl)
  timeout_lem (set_variable name value source path) n h k = (k, refl)
  timeout_lem (assert source path operator expected) n h k = (k, refl)
  timeout_lem (api_request request) n h k = (k, refl)

  IsStepImported : ExecutionStep → Type 0
  unfolding IsNeat IsConfigImported IsRetryImported
  IsStepImported step =
      IsNeat step.id
      × IsNeat step.name
      × IsConfigImported upper U step.config
      × (version_of step.config ≡ step.version)
      × (is_positive step.timeout_ms ≡ true)
      × (timeout_of step.config step.timeout_ms ≡ step.timeout_ms)
      × IsRetryImported step.retry_policy

  to_execution_step-IsStepImported :
      (test : RawYamlStep) (index : ℕ) → Returns IsStepImported (to_execution_step upper test index)
  unfolding to_execution_step IsStepImported
  to_execution_step-IsStepImported test index =
      let id = trimmed_or test.id (numbered index) in
      let neat : IsNeat id = trimmed_or_lem test.id (numbered index) (numbered_lem index) in
      let name = trimmed_or test.name id in
      then-Returns (IsConfigImported upper U) IsStepImported (to_config upper test name) _
        (to_config-IsConfigImported upper U test name)
        (λ c h.
          let (p, q) =
            timeout_lem c (positive_or test.timeout_ms (whole 30000)) h
              (positive_or_lem test.timeout_ms (whole 30000) refl) in
          (
            neat,
            trimmed_or_lem test.name id neat,
            h,
            refl,
            p,
            q,
            to_retry_policy_lem test.retry_policy,
          ))

  again :
      (step : ExecutionStep) (index : ℕ)
      → IsStepImported step
      → to_execution_step upper (to_yaml_step step) index ≡ ok step
  unfolding to_execution_step IsStepImported to_yaml_step with_config base_of
  again step index (i, n, c, v, t, u, r) =
      let t' : positive_or (some step.timeout_ms) (whole 30000) ≡ step.timeout_ms = rw t refl in
      rw (to_config_again upper U step step.config _ c) (
        rw (trimmed_or_again step.id (numbered index) i) (
          rw (trimmed_or_again step.name step.id n) (
            rw t' (
              rw
                (
                  u,
                  v,
                  to_retry_policy_again step.retry_policy r,
                  is_true_again step.continue_on_failure,
                )
                refl))))

  -- If `toUpperCase` twice is the same as once, and keeps white space, then a step that was imported is, from
  -- what it is exported as, imported again, at whatever place of the suite.
  pub to_execution_step-to_yaml_step :
      (test : RawYamlStep) (i j : ℕ) (step : ExecutionStep)
      → to_execution_step upper test i ≡ ok step
      → to_execution_step upper (to_yaml_step step) j ≡ ok step
  to_execution_step-to_yaml_step test i j step h =
      again step j (subst (Returns IsStepImported) h (to_execution_step-IsStepImported test i))
