-- ===== src/Common/Regex.antt =====
-- The regular expressions that the sources use, without regard to case (the flag `i`): the matches at
-- the head of a text in the order in which JavaScript tries them, `test`, a capture of `match`, and
-- `replace` with the flag `g`. A repeated part is one of a class of characters.
use Prim.Native.Nat.{ℕ, zero, suc, ◌+◌}
use Prim.Native.Char.{Char, code}
use Prim.Native.String.{String, [], ◌∷◌}
use mathlib.Core.Bool.{Bool, true, false, ◌||◌, ◌&&◌}
use mathlib.Core.Option.{Option, none, some}
use mathlib.Core.List.{List, [] as nil, ◌∷◌ as cons, ◌++◌, map}
use testing_environment.Common.Tests.{leb, ◌==◌, if◌then◌else◌}
use testing_environment.Common.Text.{◌<>◌}

pub data Regex : Type 0 where
  word : String → Regex
  one : (Char → Bool) → Regex
  -- `*`, as many characters as there are first
  many : (Char → Bool) → Regex
  -- `?`
  maybe : Regex → Regex
  then_ : Regex → Regex → Regex
  either : Regex → Regex → Regex

infixr 50 ◌~◌
infixr 40 ◌/◌
abbrev pub ◌~◌ : Regex → Regex → Regex
a ~ b = then_ a b

abbrev pub ◌/◌ : Regex → Regex → Regex
a / b = either a b

-- `+`
abbrev pub many1 : (Char → Bool) → Regex
many1 p = one p ~ many p

-- What a match took, and what it left.
abbrev pub Match : Type 0
Match = String × String

-- The flag `i` folds the letters of ASCII only onto letters of ASCII.
abbrev fold : Char → ℕ
fold c =
    let n = code c in
    if leb 97 n && leb n 122 then n else if leb 65 n && leb n 90 then n + 32 else n

abbrev after : String → List Match → List Match
after took ms = map (λ m. (took <> m.0, m.1)) ms

abbrev put : Char → List Match → List Match
put c ms = map (λ m. (c ∷ m.0, m.1)) ms

unfoldable word_matches : String → String → List Match
word_matches [] s = cons ([], s) nil
word_matches (c ∷ w) [] = nil
word_matches (c ∷ w) (d ∷ s) =
    let rest = word_matches w s in if fold c == fold d then put d rest else nil

unfoldable many_matches : (Char → Bool) → String → List Match
many_matches p [] = cons ([], []) nil
many_matches p (c ∷ s) =
    let rest = many_matches p s in (if p c then put c rest else nil) ++ cons ([], c ∷ s) nil

abbrev one_match : (Char → Bool) → String → List Match
one_match p [] = nil
one_match p (c ∷ s) = if p c then cons (c ∷ [], s) nil else nil

abbrev bind : List Match → (String → List Match) → List Match
bind nil f = nil
bind (cons m ms) f = after m.0 (f m.1) ++ bind ms f

-- The matches at the head of a text.
unfoldable pub matches : Regex → String → List Match
unfolding word_matches many_matches
matches (word w) s = word_matches w s
matches (one p) s = one_match p s
matches (many p) s = many_matches p s
matches (maybe r) s = matches r s ++ cons ([], s) nil
matches (then_ a b) s = bind (matches a s) (λ rest. matches b rest)
matches (either a b) s = matches a s ++ matches b s

abbrev is_match : List Match → Bool
is_match nil = false
is_match (cons _ _) = true

-- `r.test(s)`
unfoldable pub occurs : Regex → String → Bool
unfolding matches
occurs r [] = is_match (matches r [])
occurs r (c ∷ s) = let later = occurs r s in is_match (matches r (c ∷ s)) || later

abbrev group_of : Regex → Regex → List Match → Option String
group_of g suffix nil = none
group_of g suffix (cons m ms) =
    let later = group_of g suffix ms in if is_match (matches suffix m.1) then some m.0 else later

abbrev groups : Regex → Regex → List Match → Option String
groups g suffix nil = none
groups g suffix (cons m ms) =
    let later = groups g suffix ms in
    elim (group_of g suffix (matches g m.1)) [ none ↦ later | some t ↦ some t ]

-- The group `g` of the first match of `prefix(g)suffix`, as `s.match(r)?.[1]` answers it.
unfoldable pub capture : Regex → Regex → Regex → String → Option String
unfolding matches
capture prefix g suffix [] = groups g suffix (matches prefix [])
capture prefix g suffix (c ∷ s) =
    let later = capture prefix g suffix s in
    elim (groups g suffix (matches prefix (c ∷ s))) [ none ↦ later | some t ↦ some t ]

-- The empty expression.
abbrev pub nothing : Regex
nothing = word ""

unfoldable pub count : String → ℕ
count [] = 0
count (c ∷ s) = suc (count s)

-- The first match of `(group)rest` at the head of a text: the group, and how many characters it took.
unfoldable first_match : Regex → List Match → Option (String × ℕ)
unfolding matches count
first_match body nil = none
first_match body (cons m ms) =
    let later = first_match body ms in
    elim (matches body m.1) [ nil ↦ later | cons n _ ↦ some (m.0, count m.0 + count n.0) ]

-- What comes out where a match may begin with `c`; `rest` is the text from so many characters after it.
unfoldable replaced : String → Char → (ℕ → String) → Option (String × ℕ) → String
replaced out c rest none = c ∷ rest zero
replaced out c rest (some (kept, zero)) = c ∷ rest zero
replaced out c rest (some (kept, suc n)) = kept <> out <> rest n

-- The text from here on, where the next characters belong to a match.
unfoldable replace_from : Regex → Regex → String → ℕ → String → String
unfolding matches first_match replaced
replace_from group body out skip [] = []
replace_from group body out (suc skip) (c ∷ s) = replace_from group body out skip s
replace_from group body out zero (c ∷ s) =
    replaced out c (λ n. replace_from group body out n s) (first_match body (matches group (c ∷ s)))

-- `s.replace(/(group)body/g, '$1out')`, where what is matched is not empty
unfoldable pub replace_all : Regex → Regex → String → String → String
unfolding replace_from
replace_all group body out s = replace_from group body out zero s

-- A text with its case.
unfoldable pub exact : String → Regex
exact [] = nothing
exact (c ∷ s) = one (λ d. code d == code c) ~ exact s
