-- ===== src/Diagnosis/Stringify.antt =====
-- `JSON.stringify` of a value that JSON can hold, as the diagnosis prints values.
use Prim.Native.Char.{Char, code}
use Prim.Native.Nat.{◌/◌, ◌%◌}
use Prim.Native.String.{◌∷◌ as put, [] as empty}
use testing_environment.Common.{
  ℕ, String, true, false, Option, none, some, ◌==◌, if◌then◌else◌, ltb,
}
use testing_environment.Common.Text.{◌<>◌, show}
use testing_environment.Common.Regex.{occurs}
use testing_environment.Diagnosis.Context.{sanitize_detail, secret_key}
use testing_environment.Suites.Flow.{
  Json, null, boolean, number, text, array, object, Items, end, item, Fields, done, field,
}

abbrev hex : ℕ → String
hex n =
    if n == 10
    then "a"
    else if n == 11
    then "b"
    else if n == 12
    then "c"
    else if n == 13
    then "d"
    else if n == 14
    then "e"
    else if n == 15
    then "f"
    else show n

unfoldable escaped : Char → String
unfolding show
escaped c =
    let n = code c in
    if n == 34
    then "\\\""
    else if n == 92
    then "\\\\"
    else if n == 8
    then "\\b"
    else if n == 12
    then "\\f"
    else if n == 10
    then "\\n"
    else if n == 13
    then "\\r"
    else if n == 9
    then "\\t"
    else if ltb n 32
    then "\\u00" <> hex (n / 16) <> hex (n % 16)
    else put c empty

unfoldable all_escaped : String → String
unfolding escaped
all_escaped empty = ""
all_escaped (put c s) = escaped c <> all_escaped s

abbrev quoted : String → String
quoted s = "\"" <> all_escaped s <> "\""

unfoldable mutual
  unfolding all_escaped

  pub json_text : Json → String
  json_text null = "null"
  json_text (boolean true) = "true"
  json_text (boolean false) = "false"
  json_text (number n) = n
  json_text (text s) = quoted s
  json_text (array items) = let inner = items_text items in "[" <> inner <> "]"
  json_text (object fields) = let inner = fields_text fields in "{" <> inner <> "}"

  items_text : Items → String
  items_text end = ""
  items_text (item v end) = json_text v
  items_text (item v (item u rest)) =
      let later = items_text (item u rest) in json_text v <> "," <> later

  fields_text : Fields → String
  fields_text done = ""
  fields_text (field k v done) = quoted k <> ":" <> json_text v
  fields_text (field k v (field l u rest)) =
      let later = fields_text (field l u rest) in quoted k <> ":" <> json_text v <> "," <> later

-- `${JSON.stringify(value)}`
abbrev pub stringified : Option Json → String
stringified none = "undefined"
stringified (some v) = json_text v

-- `sanitizeJsonPreview`
unfoldable pub sanitize_json_preview : Option Json → String
unfolding json_text sanitize_detail occurs
sanitize_json_preview none = ""
sanitize_json_preview (some null) = ""
sanitize_json_preview (some v) =
    let json = json_text v in
    if occurs secret_key json
    then "[redacted: may contain secrets — see test result ref]"
    else sanitize_detail json
