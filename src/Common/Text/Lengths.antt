-- ===== src/Common/Text/Lengths.antt =====
-- The length of a text in code units, and of a text that is cut off.
use Prim.Native.Nat.{ℕ, ◌+◌, ◌≤◌, ◌-◌}
use Prim.Native.Char.{Char}
use Prim.Native.String.{String, [], ◌∷◌}
use mathlib.Core.Path.{◌≡◌, ap, ◌∙◌}
use text.Mathlib.TextLemmas.{nil-append, cons-append}
use mathlib.Core.Logic.{inl, inr}
use native.Mathlib.Omega.{arith}
use testing_environment.Common.Tests.{Bool-cases, leb, ◌==◌, if◌then◌else◌, leb→le}
use testing_environment.Common.Text.{units, units_of, clip, ◌<>◌}

pub units-append : (s t : String) → units (s <> t) ≡ units s + units t
unfolding units
units-append [] t = ap units (nil-append t) ∙ omega arith
units-append (c ∷ s) t = ap units (cons-append c s t) ∙ omega (arith, units-append s t)

-- The half of a character that is left where there is room.
half_lem : (n : ℕ) → units (if n == 0 then [] else "�") ≤ n
unfolding units
half_lem n = elim (Bool-cases (n == 0)) [ inl p ↦ rw p (omega arith) | inr p ↦ rw p (ground arith) ]

zero_le : (n : ℕ) → units [] ≤ n
unfolding units
zero_le n = omega arith

kept :
    (n : ℕ) (c : Char) (s : String)
    → units_of c ≤ n
    → units (clip (n - units_of c) s) ≤ n - units_of c
    → units (c ∷ clip (n - units_of c) s) ≤ n
unfolding units clip
kept n c s p h = omega (arith, p, h)

pub units-clip : (n : ℕ) (s : String) → units (clip n s) ≤ n
unfolding clip
units-clip n [] = zero_le n
units-clip n (c ∷ s) = elim (Bool-cases (leb (units_of c) n)) [
  | inl p ↦ rw p (kept n c s (leb→le _ _ p) (units-clip (n - units_of c) s))
  | inr p ↦ rw p (half_lem n)
]
