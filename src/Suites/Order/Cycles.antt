-- ===== src/Suites/Order/Cycles.antt =====
-- That an order of the steps that respects the edges ranks them, so that a cycle has none.
use testing_environment.Common.{
  ◌↔◌, ℕ, suc, ◌+◌, ◌≤◌, ◌<◌, String, ◌≡◌, sym, Bool, List, [], ◌∷◌, ◌++◌, map, length,
  if◌then◌else◌, str_eq, str_eq_iff, arith, Bool-cases, inl, inr, All,
}
use mathlib.Core.List.{append_assoc}
use testing_environment.Common.Result.{ok}
use testing_environment.Suites.Order.{FlowEdge, sort_nodes}
use testing_environment.Suites.Order.Counting.{occ, occ-append, occ-cons, occ-one, occ-nil}
use testing_environment.Suites.Order.Invariant.{IsOrdered}
use testing_environment.Suites.Order.Sorted.{Once}
use testing_environment.Suites.Order.Topological.{
  IsAcyclic, sort_nodes-IsOrdered, sort_nodes-acyclic,
}

-- The place of a step in a list.
unfoldable pub position : String → List String → ℕ
position x [] = 0
position x (y ∷ ys) = if str_eq y x then 0 else suc (position x ys)

position_left :
    (x : String) (xs ys : List String) → 0 < occ x xs → position x (xs ++ ys) < length xs
unfolding occ position
position_left x [] ys h = absurd (omega (arith, h))
position_left x (z ∷ zs) ys h = elim (Bool-cases (str_eq z x)) [
  | inl e ↦ rw e (omega arith)
  | inr e ↦ let k = rw e at h in rw e (omega (arith, position_left x zs ys (omega (arith, k))))
]

position_right :
    (x : String) (xs ys : List String)
    → occ x xs ≡ 0
    → position x (xs ++ ys) ≡ length xs + position x ys
unfolding occ position
position_right x [] ys h = omega arith
position_right x (z ∷ zs) ys h = elim (Bool-cases (str_eq z x)) [
  | inl e ↦ let k = rw e at h in absurd (omega (arith, k))
  | inr e ↦ let k = rw e at h in rw e (omega (arith, position_right x zs ys (omega (arith, k))))
]

-- An edge to a step that is still to come leads forwards.
abbrev Rises : List String → List String → FlowEdge → Type 0
Rises before xs e =
    occ e.target before ≡ 0
    → 1 ≤ occ e.target xs
    → position e.source (before ++ xs) < position e.target (before ++ xs)

zip_All :
    {P Q R : FlowEdge → Type 0} (es : List FlowEdge)
    → ((e : FlowEdge) → P e → Q e → R e)
    → All P es
    → All Q es
    → All R es
zip_All [] f hp hq = tt
zip_All (e ∷ es) f hp hq = (f e hp.0 hq.0, zip_All es f hp.1 hq.1)

none_to_come : (before : List String) (es : List FlowEdge) → All (Rises before []) es
none_to_come before [] = tt
none_to_come before (e ∷ es) =
    (λ new here. absurd (omega (arith, here, occ-nil e.target)), none_to_come before es)

IsOrdered-Rises :
    (es : List FlowEdge) (before xs : List String)
    → IsOrdered es before xs
    → All (Rises before xs) es
IsOrdered-Rises es before [] h = none_to_come before es
IsOrdered-Rises es before (x ∷ xs) h =
    zip_All es one h.0 (IsOrdered-Rises es (before ++ x ∷ []) xs h.1)
  where
    one :
        (e : FlowEdge)
        → (e.target ≡ x → 0 < occ e.source before)
        → Rises (before ++ x ∷ []) xs e
        → Rises before (x ∷ xs) e
    one e ready later new here = elim (Bool-cases (str_eq x e.target)) [
      | inl p ↦
          let q : x ≡ e.target = (str_eq_iff x e.target).0 p in
          omega (
            arith,
            position_left e.source before (x ∷ xs) (ready (sym q)),
            position_right e.target before (x ∷ xs) new,
          )
      | inr p ↦
          let fresh : occ e.target (before ++ x ∷ []) ≡ 0 =
            rw (occ-append, occ-one, p, new) (omega arith) in
          let there : 1 ≤ occ e.target xs = let k = rw (occ-cons, p) at here in omega (arith, k) in
          rw append_assoc at (later fresh there)
    ]

-- Each edge connects two of the steps.
abbrev pub AreConnected : List String → List FlowEdge → Type 0
AreConnected steps es = All (λ e. (1 ≤ occ e.source steps) × (1 ≤ occ e.target steps)) es

module _ {Node : Type 0} (id : Node → String) (locale_le code_le : String → String → Bool)
    (nodes : List Node) (edges : List FlowEdge) (once : Once id locale_le code_le nodes edges)
    (connected : AreConnected (map id nodes) edges) where
  ranked :
      (ordered : List Node)
      → sort_nodes id locale_le code_le nodes edges ≡ ok ordered
      → IsAcyclic (map id nodes) (λ x. position x (map id ordered)) edges
  ranked ordered h =
      let (respects, same) = sort_nodes-IsOrdered id locale_le code_le nodes edges once ordered h in
      zip_All edges (λ e rises ends. (rises (occ-nil e.target) (rw (same e.target) ends.1), ends.0))
        (IsOrdered-Rises edges [] (map id ordered) respects) connected

  -- If no two steps share an id and each edge connects two steps, then the sort succeeds exactly if the steps
  -- have ranks that increase along each edge, so that it refuses a flow with a cycle and no other.
  pub sort_nodes_iff :
      ((ordered : List Node) × (sort_nodes id locale_le code_le nodes edges ≡ ok ordered))
      ↔ ((rank : String → ℕ) × IsAcyclic (map id nodes) rank edges)
  sort_nodes_iff = (
    λ (ordered, h). (λ x. position x (map id ordered), ranked ordered h),
    λ (rank, h). sort_nodes-acyclic id locale_le code_le nodes edges once rank h,
  )
