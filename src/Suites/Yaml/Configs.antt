-- ===== src/Suites/Yaml/Configs.antt =====
-- What the import of a configuration returns, it returns again for what that is exported as.
use testing_environment.Common.{
  String, Bool, true, false, not, Option, none, some, if◌then◌else◌, Bool-cases, Option-cases, ◌≡◌,
  refl, ap, ◌∙◌, inl, inr,
}
use testing_environment.Common.Result.{Result, ok, err, ◌>>=◌, ◌>>◌, Returns}
use testing_environment.Common.Text.{trim, is_blank, is_blank_option, trimmed}
use testing_environment.Common.Text.Trimming.{trim-trim, is_blank-trim, trimmed_twice}
use testing_environment.Suites.Flow.{
  Number, whole, CompileError, RequestConfig, StepConfig, api_request, wait, poll_until,
  set_variable, assert, ExecutionStep,
}
use testing_environment.Suites.Validation.{exceeds, is_positive, throw_if}
use testing_environment.Suites.Steps.{
  clean_object, clean_texts, clean_value, not_empty, to_assertions,
}
use testing_environment.Suites.Compiler.{positive_number}
use testing_environment.Suites.Yaml.{
  RawYamlRequest, RawYamlStep, text_of, to_request_config, to_wait, to_poll, to_set_variable,
  to_assert, to_request, to_config, positive_or, contained, assertions_of, RawPoll, RawSetVariable,
  RawAssert, is_type, poll_timeout, poll_interval, ms_or_seconds,
}
use testing_environment.Suites.Yaml.Export.{raw_assertions, to_yaml_request, with_config, base_of}
use testing_environment.Suites.Yaml.Cleaning.{
  clean_object_twice, clean_texts_twice, clean_value_twice, not_empty_twice, present_text,
  to_assertions_again,
}

-- What the import relies on of `toUpperCase`: twice is the same as once, and it keeps white space.
pub record KeepsSpace (upper : String → String) : Type 0 where
  pub twice : (s : String) → upper (upper s) ≡ upper s
  pub trims : (s : String) → trim (upper s) ≡ upper (trim s)
  pub blanks : (s : String) → is_blank (upper s) ≡ is_blank s

throw_if-Returns :
    {A : Type 0} (P : A → Type 0) (b : Bool) (e : CompileError) (k : Result CompileError A)
    → (b ≡ false → Returns P k)
    → Returns P (throw_if b e >> k)
throw_if-Returns P true e k h = tt
throw_if-Returns P false e k h = h refl

pub then-Returns :
    {A B : Type 0} (P : A → Type 0) (Q : B → Type 0) (x : Result CompileError A)
    (f : A → Result CompileError B)
    → Returns P x
    → ((a : A) → P a → Returns Q (f a))
    → Returns Q (x >>= f)
then-Returns P Q (ok a) f i h = h a i
then-Returns P Q (err e) f i h = tt

positive_number_lem :
    (n fallback : Number)
    → is_positive fallback ≡ true
    → is_positive (positive_number n fallback) ≡ true
positive_number_lem n fallback h = elim (Bool-cases (is_positive n)) [
  | inl e ↦ rw e e
  | inr e ↦ rw e h
]

pub positive_or_lem :
    (n : Option Number) (fallback : Number)
    → is_positive fallback ≡ true
    → is_positive (positive_or n fallback) ≡ true
positive_or_lem none fallback h = h
positive_or_lem (some n) fallback h = positive_number_lem n fallback h

unless : (b : Bool) → not b ≡ false → b ≡ true
unless true h = refl
unless false h = cc

module _ (upper : String → String) (U : KeepsSpace upper) where
  -- A request that was imported: its parts are as the import leaves them.
  unfoldable pub IsImported : RequestConfig → Type 0
  IsImported c =
      (is_blank c.method ≡ false)
      × (upper (trim c.method) ≡ c.method)
      × (is_blank c.path ≡ false)
      × (trim c.path ≡ c.path)
      × (clean_texts (clean_texts c.headers) ≡ c.headers)
      × (clean_object (clean_object c.query) ≡ c.query)
      × (clean_value (clean_value c.json) ≡ c.json)
      × (clean_value (clean_value c.expect.json_contains) ≡ c.expect.json_contains)
      × (to_assertions (raw_assertions c.expect.assertions) ≡ c.expect.assertions)
      × (clean_texts (clean_texts c.save) ≡ c.save)

  method_lem :
      (m : Option String) → is_blank_option m ≡ false → is_blank (upper (trim (text_of m))) ≡ false
  method_lem none h = cc
  method_lem (some m) h = U.blanks (trim m) ∙ is_blank-trim m ∙ h

  path_lem : (p : Option String) → is_blank_option p ≡ false → is_blank (trim (text_of p)) ≡ false
  path_lem none h = cc
  path_lem (some p) h = is_blank-trim p ∙ h

  upper_again : (s : String) → upper (trim (upper (trim s))) ≡ upper (trim s)
  upper_again s = ap upper (U.trims (trim s) ∙ ap upper (trim-trim s)) ∙ U.twice (trim s)

  to_request_config-IsImported :
      (r : RawYamlRequest) (name : String) → Returns IsImported (to_request_config upper r name)
  unfolding to_request_config IsImported
  to_request_config-IsImported r name =
      throw_if-Returns IsImported (is_blank_option r.method) _ _ (λ m.
        throw_if-Returns IsImported (is_blank_option r.path) _ _ (λ p. (
          method_lem r.method m,
          upper_again (text_of r.method),
          path_lem r.path p,
          trim-trim (text_of r.path),
          ap clean_texts (clean_texts_twice r.headers) ∙ clean_texts_twice r.headers,
          ap clean_object (clean_object_twice r.query) ∙ clean_object_twice r.query,
          ap clean_value (clean_value_twice r.json) ∙ clean_value_twice r.json,
          ap clean_value (clean_value_twice (contained r.expect))
              ∙ clean_value_twice (contained r.expect),
          to_assertions_again (assertions_of r.expect),
          ap clean_texts (clean_texts_twice r.save) ∙ clean_texts_twice r.save,
        )))

  to_request_config_again :
      (c : RequestConfig) (name : String)
      → IsImported c
      → to_request_config upper (to_yaml_request c) name ≡ ok c
  unfolding to_request_config IsImported to_yaml_request
  to_request_config_again c name (m, u, p, t, h, q, j, k, a, s) = rw (present_text c.method m) (
      rw (present_text c.path p)
        (rw m (rw p (rw u (rw t (rw h (rw q (rw j (rw k (rw a (rw s refl)))))))))))

  unfoldable pub IsConfigImported : StepConfig → Type 0
  unfolding IsImported
  IsConfigImported (wait duration) = is_positive duration ≡ true
  IsConfigImported (poll_until request timeout interval message) =
      IsImported request
      × (is_positive timeout ≡ true)
      × (is_positive interval ≡ true)
      × (exceeds interval timeout ≡ false)
      × (trimmed message ≡ message)
  IsConfigImported (set_variable name value source path) =
      (is_blank name ≡ false)
      × (trim name ≡ name)
      × (trimmed source ≡ source)
      × (trimmed path ≡ path)
  IsConfigImported (assert source path operator expected) =
      (is_blank path ≡ false)
      × (trim path ≡ path)
      × (trimmed source ≡ source)
      × (not_empty expected ≡ expected)
  IsConfigImported (api_request request) = IsImported request

  wait_lem : (d : Number) (name : String) → Returns IsConfigImported (to_wait upper d name)
  unfolding to_wait IsConfigImported
  wait_lem d name =
      throw_if-Returns IsConfigImported (not (is_positive d)) _ _ (unless (is_positive d))

  request_lem :
      (r : RawYamlRequest) (name : String) (k : RequestConfig → Result CompileError StepConfig)
      → ((c : RequestConfig) → IsImported c → Returns IsConfigImported (k c))
      → Returns IsConfigImported (to_request_config upper r name >>= k)
  request_lem r name k h =
      then-Returns IsImported IsConfigImported (to_request_config upper r name) k
        (to_request_config-IsImported r name) h

  poll_lem : (p : RawPoll) (name : String) → Returns IsConfigImported (to_poll upper p name)
  unfolding to_poll IsConfigImported
  poll_lem p name =
      throw_if-Returns IsConfigImported (exceeds (poll_interval p) (poll_timeout p)) _ _ (λ x.
        request_lem p.request name
          (λ request.
            ok (poll_until request (poll_timeout p) (poll_interval p) (trimmed p.failure_message)))
          (λ c i. (
            i,
            positive_or_lem (ms_or_seconds p.timeout_ms p.timeout_seconds) (whole 30000) refl,
            positive_or_lem (ms_or_seconds p.interval_ms p.interval_seconds) (whole 1000) refl,
            x,
            trimmed_twice p.failure_message,
          )))

  set_variable_lem :
      (v : RawSetVariable) (name : String) → Returns IsConfigImported (to_set_variable upper v name)
  unfolding to_set_variable IsConfigImported
  set_variable_lem v name = throw_if-Returns IsConfigImported (is_blank_option v.name) _ _ (λ b. (
    path_lem v.name b,
    trim-trim (text_of v.name),
    trimmed_twice v.from_step_id,
    trimmed_twice v.path,
  ))

  assert_lem : (a : RawAssert) (name : String) → Returns IsConfigImported (to_assert upper a name)
  unfolding to_assert IsConfigImported
  assert_lem a name = throw_if-Returns IsConfigImported (is_blank_option a.field_path) _ _ (λ b. (
    path_lem a.field_path b,
    trim-trim (text_of a.field_path),
    trimmed_twice a.source_step_id,
    not_empty_twice a.expected_value,
  ))

  to_request_lem :
      (r : RawYamlRequest) (name : String) → Returns IsConfigImported (to_request upper r name)
  unfolding to_request IsConfigImported
  to_request_lem r name = request_lem r name _ (λ c i. i)

  pub to_config-IsConfigImported :
      (test : RawYamlStep) (name : String) → Returns IsConfigImported (to_config upper test name)
  unfolding to_config
  to_config-IsConfigImported test name = elim (Option-cases test.wait) [
    | inr (d, e) ↦ rw e (wait_lem d name)
    | inl e ↦ rw e (elim (Option-cases test.poll) [
      | inr (p, f) ↦ rw f (poll_lem p name)
      | inl f ↦
          rw f
            (elim (Option-cases
              (if is_type "setVariable" test.type then test.set_variable else none)) [
                | inr (v, g) ↦ rw g (set_variable_lem v name)
                | inl g ↦
                    rw g
                      (elim (Option-cases
                        (if is_type "assert" test.type then test.assert else none)) [
                          | inr (a, h) ↦ rw h (assert_lem a name)
                          | inl h ↦ rw h (elim (Option-cases test.request) [
                            | inr (r, i) ↦ rw i (to_request_lem r name)
                            | inl i ↦ rw i tt
                          ])
                        ])
              ])
    ])
  ]

  pub to_config_again :
      (step : ExecutionStep) (c : StepConfig) (name : String)
      → IsConfigImported c
      → to_config upper (with_config (base_of step) c) name ≡ ok c
  unfolding to_config IsConfigImported with_config base_of to_wait to_poll to_set_variable to_assert
      to_request
  to_config_again step (wait d) name h = rw h refl
  to_config_again step (poll_until request timeout interval message) name (i, t, n, x, m) =
      rw t (rw n (rw x (rw (to_request_config_again request name i) (rw m refl))))
  to_config_again step (set_variable variable value source path) name (b, t, s, p) =
      rw b (rw t (rw s (rw p refl)))
  to_config_again step (assert source path operator expected) name (b, t, s, e) =
      rw b (rw t (rw s (rw e refl)))
  to_config_again step (api_request request) name h =
      rw (to_request_config_again request name h) refl
