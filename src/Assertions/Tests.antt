-- ===== src/Assertions/Tests.antt =====
-- Assertions on a response, and the theorems about them at it.
use testing_environment.Common.{
  String, ◌≡◌, refl, ◌↔◌, true, false, Option, none, some, [], ◌∷◌, All,
}
use testing_environment.Suites.Flow.{
  Json, null, number, text, array, object, end, item, done, field,
}
use testing_environment.Assertions.{
  property, contains, read_json_value, YamlAssertionOperator, equals, contains_part, exists,
  YamlAssertion, not_equal, evaluate_assertions,
}
use testing_environment.Assertions.Laws.{IsMet, evaluate_assertions_iff}
use testing_environment.Assertions.Reflexive.{HasKeysOnce, contains_refl}

-- { "user": { "name": "Ann", "tags": ["a", 7] }, "next": null }
abbrev payload : Json
payload = object (
    field "user"
      (object (
        field "name" (text "Ann")
          (field "tags" (array (item (text "a") (item (number "7") end))) done)))
      (field "next" null done))

abbrev assertion : String → YamlAssertionOperator → Option String → YamlAssertion
assertion path operator expected = record {
  field_path = path;
  operator = operator;
  expected_value = expected;
}

evaluations :
    (read_json_value payload "$.user.tags.1" ≡ some (number "7"))
    × (read_json_value payload "$.user.tags.length" ≡ some (number "2"))
    × (read_json_value payload "$.user.tags.01" ≡ none)
    × (read_json_value payload "user.name" ≡ none)
    × (evaluate_assertions payload (
          some (
            assertion "$.user.tags" equals (some "a,7")
            ∷ assertion "$.next" exists none
            ∷ assertion "$.user.name" contains_part (some "nn")
            ∷ []))
        ≡ none)
    × (evaluate_assertions payload (some (assertion "$.user.name" equals (some "Bob") ∷ []))
        ≡ some (not_equal "$.user.name" "Bob" "Ann"))
    × (contains
          (some payload)
          (object (field "user" (object (field "name" (text "Ann") done)) done))
        ≡ true)
    × (contains (some payload) (object (field "user" (text "Ann") done)) ≡ false)
unfolding evaluate_assertions read_json_value contains
evaluations = (refl, refl, refl, refl, refl, refl, refl, refl)

evaluate_assertions_iff_example :
    (evaluate_assertions payload (some (assertion "$.user.name" equals (some "Ann") ∷ [])) ≡ none)
    ↔ All (IsMet payload) (assertion "$.user.name" equals (some "Ann") ∷ [])
evaluate_assertions_iff_example =
    evaluate_assertions_iff payload (some (assertion "$.user.name" equals (some "Ann") ∷ []))

contains_refl_example : contains (some payload) payload ≡ true
unfolding HasKeysOnce property
contains_refl_example =
    contains_refl payload (refl, (refl, tt, (refl, (tt, (tt, tt)), tt)), (refl, tt, tt))
