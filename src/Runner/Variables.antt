-- ===== src/Runner/Variables.antt =====
-- VariableStoreService (runner/variable-store.service.ts): `{{ name }}` and `{{ secret.name }}` in the texts of a
-- request are replaced by what the store and the secrets have.
use Prim.Native.Char.{Char, code}
use Prim.Native.Nat.{ℕ, zero, suc, ◌+◌}
use Prim.Native.String.{String, [] as empty, ◌∷◌ as put}
use testing_environment.Common.{
  Bool, true, false, ◌&&◌, ◌||◌, Option, none, some, List, [], ◌∷◌, ◌++◌, map, ◌==◌, leb, or_else,
  if◌then◌else◌,
}
use testing_environment.Common.Text.{◌<>◌, is_space, is_digit}
use testing_environment.Common.Regex.{many, many1, maybe, exact, ◌~◌, matches, Match, count}
use testing_environment.Suites.Flow.{
  Json, null, boolean, number, text, array, object, Items, end, item, Fields, done, field,
  ExecutionAssertion, RequestConfig,
}
use testing_environment.Runner.{Store, get}

-- `[A-Za-z0-9_]`
abbrev is_key : Char → Bool
is_key c =
    let n = code c in (leb 65 n && leb n 90) || (leb 97 n && leb n 122) || is_digit c || n == 95

pub record Placeholder : Type 0 where
  pub is_secret : Bool
  pub key : String
  pub length : ℕ

abbrev is_empty : String → Bool
is_empty empty = true
is_empty (put _ _) = false

-- The matches of the opening, of the prefix `secret.`, of the key and of the closing, in turn.
abbrev closings : ℕ → Bool → String → List Match → List Placeholder
closings before secret key [] = []
closings before secret key (m ∷ _) =
    record { is_secret = secret; key = key; length = before + count key + count m.0 } ∷ []

unfoldable keys : ℕ → Bool → List Match → List Placeholder
unfolding matches exact count
keys before secret [] = []
keys before secret (m ∷ ms) =
    closings before secret m.0 (matches (many is_space ~ exact "}}") m.1) ++ keys before secret ms

unfoldable prefixes : ℕ → List Match → List Placeholder
unfolding keys matches count
prefixes before [] = []
prefixes before (m ∷ ms) =
    let secret = if is_empty m.0 then false else true in
    keys (before + count m.0) secret (matches (many1 is_key) m.1) ++ prefixes before ms

unfoldable openings : List Match → List Placeholder
unfolding prefixes matches exact count
openings [] = []
openings (m ∷ ms) = prefixes (count m.0) (matches (maybe (exact "secret.")) m.1) ++ openings ms

abbrev head : List Placeholder → Option Placeholder
head [] = none
head (p ∷ _) = some p

-- The placeholder at the head of a text.
unfoldable pub placeholder : String → Option Placeholder
unfolding openings matches exact
placeholder s = head (openings (matches (exact "{{" ~ many is_space) s))

module _ (variables secrets : Store String) where
  unfoldable value_of : Placeholder → String
  unfolding get
  value_of p = or_else (get p.key (if p.is_secret then secrets else variables)) ""

  -- What comes out where a placeholder may begin with `c`; `rest` is the text from so many characters after it.
  unfoldable filled : Char → (ℕ → String) → Option Placeholder → String
  unfolding value_of
  filled c rest none = put c (rest zero)
  filled c rest (some p) = fill p.length
    where
      fill : ℕ → String
      fill zero = put c (rest zero)
      fill (suc n) = value_of p <> rest n

  unfoldable interpolate_from : String → ℕ → String
  unfolding filled placeholder
  interpolate_from empty skip = empty
  interpolate_from (put c s) (suc skip) = interpolate_from s skip
  interpolate_from (put c s) zero = filled c (λ n. interpolate_from s n) (placeholder (put c s))

  unfoldable pub interpolate_text : String → String
  unfolding interpolate_from
  interpolate_text s = interpolate_from s zero

  unfoldable mutual
    unfolding interpolate_text

    pub interpolate : Json → Json
    interpolate null = null
    interpolate (boolean b) = boolean b
    interpolate (number n) = number n
    interpolate (text s) = text (interpolate_text s)
    interpolate (array items) = array (interpolate_items items)
    interpolate (object fields) = object (interpolate_fields fields)

    interpolate_items : Items → Items
    interpolate_items end = end
    interpolate_items (item v rest) = item (interpolate v) (interpolate_items rest)

    interpolate_fields : Fields → Fields
    interpolate_fields done = done
    interpolate_fields (field k v rest) = field k (interpolate v) (interpolate_fields rest)

  abbrev optional : {A : Type 0} → (A → A) → Option A → Option A
  optional f none = none
  optional f (some a) = some (f a)

  unfoldable texts : List (String × String) → List (String × String)
  unfolding interpolate_text
  texts entries = map (λ e. (e.0, interpolate_text e.1)) entries

  unfoldable values : List (String × Json) → List (String × Json)
  unfolding interpolate
  values entries = map (λ e. (e.0, interpolate e.1)) entries

  unfoldable interpolate_assertion : ExecutionAssertion → ExecutionAssertion
  unfolding interpolate_text
  interpolate_assertion a = record a {
    field_path = interpolate_text a.field_path;
    expected_value = optional interpolate_text a.expected_value;
  }

  -- The request, each of whose texts is interpolated.
  unfoldable pub interpolate_request : RequestConfig → RequestConfig
  unfolding interpolate_text interpolate texts values interpolate_assertion
  interpolate_request r = record {
    method = interpolate_text r.method;
    path = interpolate_text r.path;
    headers = optional texts r.headers;
    query = optional values r.query;
    json = optional interpolate r.json;
    expect = record {
      status = r.expect.status;
      json_contains = optional interpolate r.expect.json_contains;
      assertions = optional (map interpolate_assertion) r.expect.assertions;
    };
    save = optional texts r.save;
  }
