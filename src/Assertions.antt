-- ===== src/Assertions.antt =====
-- AssertionEngineService (runner/assertion-engine.service.ts) over JSON values. `undefined` is `none`.
-- Properties that a value inherits, such as `constructor`, are not modelled.
pub mod Laws
pub mod Reflexive
mod Tests
use testing_environment.Common.{
  ℕ, zero, suc, ◌+◌, String, Bool, true, false, not, ◌&&◌, Option, none, some, List, [], ◌∷◌, ◌==◌,
  if◌then◌else◌, or_else, str_eq,
}
use testing_environment.Common.Text.{split_dots, after_root, index_of, show, includes_part}
use Prim.Native.String.{◌++◌ as text_append}
use testing_environment.Suites.Flow.{
  Json, null, boolean, number, text, array, object, Items, end, item, Fields, done, field,
}

abbrev pub items_length : Items → ℕ
items_length end = 0
items_length (item v rest) = suc (items_length rest)

unfoldable pub item_at : ℕ → Items → Option Json
item_at n end = none
item_at zero (item v rest) = some v
item_at (suc n) (item v rest) = item_at n rest

unfoldable pub field_named : String → Fields → Option Json
field_named key done = none
field_named key (field k v rest) = if str_eq k key then some v else field_named key rest

abbrev item_at_key : Items → Option ℕ → Option Json
item_at_key items none = none
item_at_key items (some n) = item_at n items

-- `value[key]` of a value that is an object; anything else has no such property.
unfoldable pub property : String → Json → Option Json
unfolding item_at field_named index_of show
property key (array items) =
    if str_eq key "length"
    then some (number (show (items_length items)))
    else item_at_key items (index_of key)
property key (object fields) = field_named key fields
property key _ = none

abbrev pub property_of : String → Option Json → Option Json
property_of key none = none
property_of key (some v) = property key v

-- `actual === expected` for an expected value that is not an object
abbrev bool_eq : Bool → Bool → Bool
bool_eq true b = b
bool_eq false b = not b

unfoldable pub same_value : Option Json → Json → Bool
same_value (some null) null = true
same_value (some (boolean a)) (boolean b) = bool_eq a b
same_value (some (number a)) (number b) = str_eq a b
same_value (some (text a)) (text b) = str_eq a b
same_value _ _ = false

abbrev pub is_array : Option Json → Bool
is_array (some (array _)) = true
is_array _ = false

-- `actual && typeof actual === 'object'`
abbrev pub is_object : Option Json → Bool
is_object (some (array _)) = true
is_object (some (object _)) = true
is_object _ = false

abbrev pub item_of : ℕ → Option Json → Option Json
item_of n (some (array items)) = item_at n items
item_of n _ = none

unfoldable mutual
  unfolding same_value property item_at

  pub contains : Option Json → Json → Bool
  contains actual null = same_value actual null
  contains actual (boolean b) = same_value actual (boolean b)
  contains actual (number n) = same_value actual (number n)
  contains actual (text s) = same_value actual (text s)
  contains actual (array items) = let rest = every_item actual 0 items in is_array actual && rest
  contains actual (object fields) = let rest = every_field actual fields in is_object actual && rest

  pub every_item : Option Json → ℕ → Items → Bool
  every_item actual n end = true
  every_item actual n (item v rest) =
      let here = contains (item_of n actual) v in
      let later = every_item actual (suc n) rest in here && later

  pub every_field : Option Json → Fields → Bool
  every_field actual done = true
  every_field actual (field key v rest) =
      let here = contains (property_of key actual) v in
      let later = every_field actual rest in here && later

abbrev follow : Option Json → List String → Option Json
follow current [] = current
follow current (key ∷ keys) = follow (property_of key current) keys

abbrev follow_from : Json → Option String → Option Json
follow_from payload none = none
follow_from payload (some path) = follow (some payload) (split_dots path)

unfoldable pub read_json_value : Json → String → Option Json
unfolding property split_dots after_root
read_json_value payload path = follow_from payload (after_root path)

-- `String(value)`, of an object without a `toString` of its own
unfoldable mutual
  pub text_of : Json → String
  text_of null = "null"
  text_of (boolean true) = "true"
  text_of (boolean false) = "false"
  text_of (number n) = n
  text_of (text s) = s
  text_of (array items) = join items
  text_of (object fields) = "[object Object]"

  pub join : Items → String
  join end = ""
  join (item v end) = joined_text v
  join (item v (item u rest)) =
      let later = join (item u rest) in text_append (joined_text v) (text_append "," later)

  -- An entry of an array's text, where null is empty.
  pub joined_text : Json → String
  joined_text null = ""
  joined_text (boolean true) = "true"
  joined_text (boolean false) = "false"
  joined_text (number n) = n
  joined_text (text s) = s
  joined_text (array items) = join items
  joined_text (object fields) = "[object Object]"

abbrev not_null : Option Json → Option String
not_null none = none
not_null (some null) = none
not_null (some v) = some (text_of v)

unfoldable pub read_json_path : Json → String → Option String
unfolding read_json_value text_of
read_json_path payload path = not_null (read_json_value payload path)

pub data YamlAssertionOperator : Type 0 where
  equals contains_part exists : YamlAssertionOperator
  other : String → YamlAssertionOperator

pub record YamlAssertion : Type 0 where
  pub field_path : String
  pub operator : YamlAssertionOperator
  pub expected_value : Option String

-- Why an assertion does not pass.
pub data Failure : Type 0 where
  missing_field : String → Failure
  not_equal : String → String → String → Failure
  not_containing : String → String → String → Failure
  unsupported_operator : String → Failure

-- The failure, or none if the assertion passes.
abbrev pub compare_value : YamlAssertion → YamlAssertionOperator → Json → Option Failure
compare_value a exists v = none
compare_value a equals v =
    let expected = or_else a.expected_value "" in
    if str_eq (text_of v) expected then none else some (not_equal a.field_path expected (text_of v))
compare_value a contains_part v =
    let expected = or_else a.expected_value "" in
    if includes_part (text_of v) expected
    then none
    else some (not_containing a.field_path expected (text_of v))
compare_value a (other name) v = some (unsupported_operator name)

abbrev check_value : YamlAssertion → Option Json → Option Failure
check_value a none = some (missing_field a.field_path)
check_value a (some v) = compare_value a a.operator v

unfoldable pub evaluate_assertion : Json → YamlAssertion → Option Failure
unfolding read_json_value text_of
evaluate_assertion payload a = check_value a (read_json_value payload a.field_path)

pub record DetailedEvaluation : Type 0 where
  pub assertion : YamlAssertion
  pub actual : Option Json
  pub failure : Option Failure

unfoldable pub evaluate_all_assertions : Json → List YamlAssertion → List DetailedEvaluation
unfolding evaluate_assertion read_json_value
evaluate_all_assertions payload [] = []
evaluate_all_assertions payload (a ∷ rest) =
    record {
      assertion = a;
      actual = read_json_value payload a.field_path;
      failure = evaluate_assertion payload a;
    }
    ∷ evaluate_all_assertions payload rest

abbrev or_first : Option Failure → Option Failure → Option Failure
or_first none later = later
or_first (some f) later = some f

-- `all.find((result) => !result.passed)`
abbrev pub first_failure : List DetailedEvaluation → Option Failure
first_failure [] = none
first_failure (d ∷ rest) = or_first d.failure (first_failure rest)

unfoldable pub evaluate_assertions : Json → Option (List YamlAssertion) → Option Failure
unfolding evaluate_all_assertions
evaluate_assertions payload assertions =
    first_failure (evaluate_all_assertions payload (or_else assertions []))
