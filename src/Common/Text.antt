-- ===== src/Common/Text.antt =====
-- `String.prototype.trim` and the test for a blank text.
pub mod Lengths
pub mod Trimming
use Prim.Native.Nat.{ℕ, zero, suc, ◌+◌, ◌*◌, ◌-◌, ◌/◌, ◌%◌}
use Prim.Native.Char.{Char, code}
use Prim.Native.String.{String, [], ◌∷◌, ◌++◌}
use mathlib.Core.Bool.{Bool, true, false, ◌||◌, ◌&&◌}
use mathlib.Core.Option.{Option, none, some}
use mathlib.Core.List.{List, [] as nil, ◌∷◌ as cons}
use text.Mathlib.Text.{◌==◌ as str_eq, find?}
use testing_environment.Common.Tests.{ltb, leb, ◌==◌, if◌then◌else◌}

-- White space and line ends.
abbrev pub is_space : Char → Bool
is_space c =
    let n = code c in
    (leb 9 n && leb n 13)
    || n == 32
    || n == 160
    || n == 5760
    || (leb 8192 n && leb n 8202)
    || n == 8232
    || n == 8233
    || n == 8239
    || n == 8287
    || n == 12288
    || n == 65279

unfoldable trim_start : String → String
trim_start [] = []
trim_start (c ∷ s) = if is_space c then trim_start s else c ∷ s

unfoldable trim_end : String → String
trim_end [] = []
trim_end (c ∷ s) = let rest = trim_end s in if is_space c && str_eq rest [] then [] else c ∷ rest

unfoldable pub trim : String → String
unfolding trim_start trim_end
trim s = trim_end (trim_start s)

-- `!s?.trim()`
unfoldable pub is_blank : String → Bool
unfolding trim
is_blank s = str_eq (trim s) []

abbrev pub is_blank_option : Option String → Bool
is_blank_option none = true
is_blank_option (some s) = is_blank s

-- `s?.trim() ? s.trim() : undefined`
abbrev pub trimmed : Option String → Option String
trimmed none = none
trimmed (some s) = if is_blank s then none else some (trim s)

-- `s.split('.')`
abbrev push_char : Char → List String → List String
push_char c nil = cons (c ∷ []) nil
push_char c (cons s rest) = cons (c ∷ s) rest

unfoldable pub split_dots : String → List String
split_dots [] = cons [] nil
split_dots (c ∷ s) =
    let rest = split_dots s in if code c == 46 then cons [] rest else push_char c rest

-- `s.slice(2)`, if the text starts with `$.`
unfoldable pub after_root : String → Option String
after_root [] = none
after_root (c ∷ []) = none
after_root (c ∷ d ∷ s) = if code c == 36 && code d == 46 then some s else none

abbrev pub is_digit : Char → Bool
is_digit c = leb 48 (code c) && leb (code c) 57

unfoldable digits : ℕ → String → Option ℕ
digits n [] = some n
digits n (c ∷ s) = if is_digit c then digits (n * 10 + (code c - 48)) s else none

-- The index that a key names: a number without leading zeros.
unfoldable pub index_of : String → Option ℕ
unfolding digits
index_of [] = none
index_of (c ∷ s) = if code c == 48 then (if str_eq s [] then some 0 else none) else digits 0 (c ∷ s)

abbrev pub digit_text : ℕ → String
digit_text n =
    if n == 0
    then "0"
    else if n == 1
    then "1"
    else if n == 2
    then "2"
    else if n == 3
    then "3"
    else if n == 4
    then "4"
    else if n == 5
    then "5"
    else if n == 6
    then "6"
    else if n == 7
    then "7"
    else if n == 8
    then "8"
    else "9"

unfoldable show_digits : ℕ → ℕ → String
show_digits zero n = []
show_digits (suc fuel) n =
    let rest = show_digits fuel (n / 10) in
    if ltb n 10 then digit_text n else rest ++ digit_text (n % 10)

-- The decimal text of a number; it has no more digits than one more than the number.
unfoldable pub show : ℕ → String
unfolding show_digits
show n = show_digits (suc n) n

-- `s.includes(t)`
abbrev pub includes_part : String → String → Bool
includes_part s t = elim (find? s t) [ none ↦ false | some _ ↦ true ]

-- `s + t`
infixr 60 ◌<>◌
abbrev pub ◌<>◌ : String → String → String
s <> t = s ++ t

-- The code units of a character in UTF-16, which has two for those beyond its plane.
abbrev pub units_of : Char → ℕ
units_of c = if ltb (code c) 65536 then 1 else 2

-- `s.length`
unfoldable pub units : String → ℕ
units [] = 0
units (c ∷ s) = units_of c + units s

-- `s.slice(0, n)`. A pair of units that it cuts leaves half a character, here the replacement character.
unfoldable pub clip : ℕ → String → String
clip n [] = []
clip n (c ∷ s) =
    let rest = clip (n - units_of c) s in
    if leb (units_of c) n then c ∷ rest else if n == 0 then [] else "�"
