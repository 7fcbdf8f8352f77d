-- ===== src/Assertions/Laws.antt =====
-- When assertions pass, and that a value contains itself.
use testing_environment.Common.{
  ◌≡◌, ◌↔◌, refl, true, Option, none, some, List, [], ◌∷◌, or_else, str_eq_iff, All, arith, inl,
  inr, Option-cases,
}
use testing_environment.Common.Text.{includes_part}
use testing_environment.Suites.Flow.{Json}
use testing_environment.Assertions.{
  read_json_value, text_of, YamlAssertionOperator, equals, contains_part, exists, other,
  YamlAssertion, compare_value, first_failure, evaluate_assertion, evaluate_all_assertions,
  evaluate_assertions,
}

-- What an assertion says of the value that its path leads to.
abbrev pub Says : YamlAssertion → YamlAssertionOperator → Json → Type 0
Says a exists v = Unit
Says a equals v = text_of v ≡ or_else a.expected_value ""
Says a contains_part v = includes_part (text_of v) (or_else a.expected_value "") ≡ true
Says a (other name) v = ⊥

-- An assertion is met if its path leads to a value of which it is true.
pub record IsMet (payload : Json) (a : YamlAssertion) : Type 0 where
  pub value : Json
  pub found : read_json_value payload a.field_path ≡ some value
  pub said : Says a a.operator value

Says-iff :
    (a : YamlAssertion) (operator : YamlAssertionOperator) (v : Json)
    → (compare_value a operator v ≡ none) ↔ Says a operator v
Says-iff a exists v = (λ h. tt, λ h. refl)
Says-iff a equals v = ground (arith, str_eq_iff (text_of v) (or_else a.expected_value ""))
Says-iff a contains_part v = ground arith
Says-iff a (other name) v = (λ h. cc, λ h. absurd h)

evaluate_assertion_iff :
    (payload : Json) (a : YamlAssertion) → (evaluate_assertion payload a ≡ none) ↔ IsMet payload a
unfolding evaluate_assertion
evaluate_assertion_iff payload a = elim (Option-cases (read_json_value payload a.field_path)) [
  | inl e ↦ (λ h. let k = rw e at h in cc, λ m. let k = m.found in cc)
  | inr (v, e) ↦ (
    λ h. record { value = v; found = e; said = (Says-iff a a.operator v).0 (rw e at h) },
    λ m. let same : m.value ≡ v = cc in rw e ((Says-iff a a.operator v).1 (rw same at m.said)),
  )
]

-- A list of assertions passes exactly if each is met.
pub evaluate_assertions_iff :
    (payload : Json) (assertions : Option (List YamlAssertion))
    → (evaluate_assertions payload assertions ≡ none) ↔ All (IsMet payload) (or_else assertions [])
unfolding evaluate_assertions
evaluate_assertions_iff payload assertions = go (or_else assertions [])
  where
    go :
        (as_listed : List YamlAssertion)
        → (first_failure (evaluate_all_assertions payload as_listed) ≡ none)
          ↔ All (IsMet payload) as_listed
    go [] = (λ h. tt, λ h. refl)
    go (a ∷ rest) = elim (Option-cases (evaluate_assertion payload a)) [
      | inl e ↦ (
        λ h. ((evaluate_assertion_iff payload a).0 e, (go rest).0 (rw e at h)),
        λ h. rw e ((go rest).1 h.1),
      )
      | inr (f, e) ↦ (
        λ h. let k = rw e at h in cc,
        λ h. let k = (evaluate_assertion_iff payload a).1 h.0 in cc,
      )
    ]
