-- ===== src/Suites/Order/Topological.antt =====
-- That `sort_nodes` finds an order that respects the edges exactly if there is one.
use testing_environment.Common.{
  ◌⊎◌, ℕ, zero, suc, ◌+◌, ◌≤◌, ◌<◌, String, ◌≡◌, refl, subst, Bool, true, false, List, [], ◌∷◌,
  ◌++◌, map, length, length-append, str_eq, str_eq_iff, arith, Bool-cases, inl, inr, All, ◌==◌,
  length-map,
}
use testing_environment.Common.Result.{ok}
use mathlib.Core.List.{map-append}
use testing_environment.Suites.Order.{FlowEdge, ℤ, State, turn, drain, start, sort_nodes}
use testing_environment.Suites.Order.Counting.{occ, occ-append, occ-cons, length-occ}
use testing_environment.Suites.Order.Invariant.{IsReady, IsReady-pending, IsOrdered}
use testing_environment.Suites.Order.Sorted.{IsSound, Once, start-IsSound, drain-IsSound}

empty_of_length : {A : Type 0} (xs : List A) → length xs ≡ 0 → xs ≡ []
empty_of_length [] h = refl
empty_of_length (x ∷ xs) h = absurd (omega (arith, h))

-- Two lists of the same length have the same entries if one has no more of each than the other.
same_occ :
    (xs ys : List String)
    → ((x : String) → occ x xs ≤ occ x ys)
    → length ys ≤ length xs
    → (x : String) → occ x xs ≡ occ x ys
same_occ xs ys h k x = elim (Bool-cases (occ x xs == occ x ys)) [
  | inl e ↦ ground (arith, e)
  | inr e ↦
      let more : (y : String) → occ y (x ∷ xs) ≤ occ y ys = λ y. elim (Bool-cases (str_eq x y)) [
        | inl p ↦
            let q : x ≡ y = (str_eq_iff x y).0 p in
            rw (occ-cons, p)
              (ground (arith, h y, e, subst (λ (z : String). (occ z xs == occ z ys) ≡ false) q e))
        | inr p ↦ rw (occ-cons, p) (omega (arith, h y))
      ] in
      absurd (omega (arith, length-occ (x ∷ xs) ys more, k))
]

-- The ranks of the steps increase along each edge, and each edge comes from one of the steps.
abbrev pub IsAcyclic : List String → (String → ℕ) → List FlowEdge → Type 0
IsAcyclic steps rank es = All (λ e. (rank e.source < rank e.target) × (1 ≤ occ e.source steps)) es

module _ {Node : Type 0} (id : Node → String) (locale_le code_le : String → String → Bool)
    (nodes : List Node) (edges : List FlowEdge) where
  turn-ended :
      (counts : String → ℤ) (queue ordered : List Node)
      → let s : State Node = record { counts = counts; queue = queue; ordered = ordered } in
        queue ≡ [] → turn id locale_le code_le nodes edges s ≡ s
  unfolding turn
  turn-ended counts [] ordered h = refl
  turn-ended counts (n ∷ queue) ordered h = cc

  after_turn :
      (counts : String → ℤ) (queue ordered : List Node)
      → let s : State Node = record { counts = counts; queue = queue; ordered = ordered } in
        (queue ≡ [])
        ⊎ (length (turn id locale_le code_le nodes edges s).ordered ≡ suc (length ordered))
  unfolding turn
  after_turn counts [] ordered = inl refl
  after_turn counts (n ∷ queue) ordered = inr (rw length-append (omega arith))

  drain-ended :
      (k : ℕ) (s : State Node)
      → s.queue ≡ []
      → (drain id locale_le code_le k nodes edges s).queue ≡ []
  unfolding drain
  drain-ended zero s h = h
  drain-ended (suc k) s h = drain-ended k _ (rw (turn-ended s.counts s.queue s.ordered h) h)

  drained :
      (k : ℕ) (s : State Node)
      → let s' = drain id locale_le code_le k nodes edges s in
        (s'.queue ≡ []) ⊎ (k + length s.ordered ≤ length s'.ordered)
  unfolding drain
  drained zero s = inr (omega arith)
  drained (suc k) s = elim (after_turn s.counts s.queue s.ordered) [
    | inl e ↦ inl (drain-ended (suc k) s e)
    | inr e ↦ elim (drained k (turn id locale_le code_le nodes edges s)) [
      | inl q ↦ inl q
      | inr q ↦ inr (omega (arith, q, e))
    ]
  ]

  module _ (once : Once id locale_le code_le nodes edges) where
    end : State Node
    end =
        drain id locale_le code_le (length nodes) nodes edges
          (start id locale_le code_le nodes edges)

    end-IsSound : IsSound id locale_le code_le nodes edges end
    unfolding end
    end-IsSound =
        drain-IsSound id locale_le code_le nodes edges once (length nodes) _
          (start-IsSound id locale_le code_le nodes edges)

    fits : (t : String) → occ t (map id (end.ordered ++ end.queue)) ≤ occ t (map id nodes)
    fits t = rw (map-append, occ-append) (ground (arith, end-IsSound.placed t))

    -- If no two steps share an id, then as many turns as there are steps empty the queue.
    pub drain-queue :
        (drain id locale_le code_le
          (length nodes)
          nodes
          edges
          (start id locale_le code_le nodes edges)).queue
        ≡ []
    unfolding end
    drain-queue = elim (drained (length nodes) (start id locale_le code_le nodes edges)) [
      | inl e ↦ e
      | inr h ↦ empty_of_length end.queue (
          omega (
            arith,
            h,
            length-occ (map id (end.ordered ++ end.queue)) (map id nodes) fits,
            length-map id (end.ordered ++ end.queue),
            length-map id nodes,
            length-append end.ordered end.queue,
          ))
    ]

    ordered_all :
        length end.ordered ≡ length nodes
        → (t : String) → occ t (map id end.ordered) ≡ occ t (map id nodes)
    ordered_all h =
        same_occ (map id end.ordered) (map id nodes) (λ t. ground (arith, end-IsSound.placed t))
          (omega (arith, h, length-map id end.ordered, length-map id nodes))

    -- The steps come in an order in which each follows the sources of all edges to it, and are the steps of
    -- the flow, each once.
    pub sort_nodes-IsOrdered :
        (ordered : List Node)
        → sort_nodes id locale_le code_le nodes edges ≡ ok ordered
        → IsOrdered edges [] (map id ordered)
          × ((t : String) → occ t (map id ordered) ≡ occ t (map id nodes))
    unfolding sort_nodes end
    sort_nodes-IsOrdered ordered h = elim (Bool-cases (length end.ordered == length nodes)) [
      | inl e ↦
          let k = rw e at h in
          let same : end.ordered ≡ ordered = cc in
          rw⁻¹ same (end-IsSound.sorted, ordered_all (ground (arith, e)))
      | inr e ↦ let k = rw e at h in cc
    ]

    no_queue : (t : String) → occ t (map id end.queue) ≡ 0
    unfolding end occ
    no_queue t = rw drain-queue refl

    module _ (rank : String → ℕ) where
      lower-IsReady :
          (t : String) (es : List FlowEdge)
          → IsAcyclic (map id nodes) rank es
          → ((u : String)
              → rank u < rank t
              → 1 ≤ occ u (map id nodes)
              → 1 ≤ occ u (map id end.ordered))
          → IsReady es (map id end.ordered) t
      lower-IsReady t [] hs below = tt
      lower-IsReady t (e ∷ es) hs below =
          (λ p. below e.source (rw⁻¹ p hs.0.0) hs.0.1, lower-IsReady t es hs.1 below)

      reached :
          IsAcyclic (map id nodes) rank edges
          → (k : ℕ) (t : String) → rank t < k
          → 1 ≤ occ t (map id nodes)
          → 1 ≤ occ t (map id end.ordered)
      reached acyclic zero t h here = absurd (omega (arith, h))
      reached acyclic (suc k) t h here =
          let ready =
            lower-IsReady t edges acyclic
              (λ u lower there. reached acyclic k u (omega (arith, h, lower)) there) in
          ground (
            arith,
            end-IsSound.placed t,
            IsReady-pending edges (map id end.ordered) t ready,
            no_queue t,
            here,
          )

      -- If the steps have ranks that increase along each edge, and each edge comes from a step, then the
      -- sort succeeds.
      pub sort_nodes-acyclic :
          IsAcyclic (map id nodes) rank edges
          → (ordered : List Node) × (sort_nodes id locale_le code_le nodes edges ≡ ok ordered)
      unfolding sort_nodes end
      sort_nodes-acyclic acyclic = (
        end.ordered,
        let all : length end.ordered ≡ length nodes = omega (
          arith,
          length-occ (map id nodes) (map id end.ordered) every,
          length-occ (map id end.ordered) (map id nodes)
              (λ t. ground (arith, end-IsSound.placed t)),
          length-map id end.ordered,
          length-map id nodes,
        ) in
            let test : (length end.ordered == length nodes) ≡ true = ground (arith, all) in
            rw test refl,
      )
        where
          every : (t : String) → occ t (map id nodes) ≤ occ t (map id end.ordered)
          every t = elim (Bool-cases (occ t (map id nodes) == 0)) [
            | inl e ↦ ground (arith, e)
            | inr e ↦
                ground (
                  arith,
                  once t,
                  reached acyclic (suc (rank t)) t (omega arith) (ground (arith, e)),
                )
          ]
