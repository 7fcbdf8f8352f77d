-- ===== src/Suites/Order/Invariant.antt =====
-- What holds before each turn of the loop of `sort_nodes`.
use testing_environment.Common.{
  ◌⊎◌, ℕ, suc, ◌+◌, ◌≤◌, ◌<◌, String, ◌≡◌, refl, ap, ◌∙◌, Bool, true, none, some, List, [], ◌∷◌,
  ◌++◌, map, if◌then◌else◌, str_eq, str_eq_iff, arith, Bool-cases, inl, inr, All, ◌==◌,
}
use mathlib.Core.List.{append_assoc, append-nil, map-append}
use text.Mathlib.TextPositions.{eq_refl}
use testing_environment.Suites.Order.{
  FlowEdge, ℤ, pos, decrement, is_zero, outgoing, node_map, by_id, enqueue, release,
}
use testing_environment.Suites.Order.Counting.{occ, occ-append, occ-one, occ-sort}

-- The edges to a step from steps that have not been ordered.
unfoldable pub pending : List FlowEdge → List String → String → ℕ
unfolding occ
pending [] done t = 0
pending (e ∷ es) done t =
    (if str_eq e.target t then (if occ e.source done == 0 then 1 else 0) else 0) + pending es done t

-- Taking a step from the queue settles the edges from it.
pub pending-step :
    (es : List FlowEdge) (done : List String) (x t : String)
    → occ x done ≡ 0
    → pending es done t ≡ pending es (done ++ x ∷ []) t + occ t (outgoing es x)
unfolding pending occ outgoing
pending-step [] done x t h = omega arith
pending-step (e ∷ es) done x t h = elim (Bool-cases (str_eq e.source x)) [
  | inl p ↦
      let q : e.source ≡ x = (str_eq_iff e.source x).0 p in
      let none_yet : occ e.source done ≡ 0 = rw q h in
      let now : occ e.source (done ++ x ∷ []) ≡ 1 =
        rw (occ-append e.source done (x ∷ []), none_yet, q, eq_refl) refl in
      rw (p, none_yet, now) (ground (arith, pending-step es done x t h))
  | inr p ↦
      let same : occ e.source (done ++ x ∷ []) ≡ occ e.source done =
        rw (occ-append e.source done (x ∷ []))
          (ground (arith, p, str_eq_iff x e.source, str_eq_iff e.source x)) in
      rw (p, same) (ground (arith, pending-step es done x t h))
]

-- Every edge to the step comes from one of the steps.
abbrev pub IsReady : List FlowEdge → List String → String → Type 0
IsReady edges done t = All (λ e. e.target ≡ t → 0 < occ e.source done) edges

pub pending-IsReady :
    (es : List FlowEdge) (done : List String) (t : String)
    → pending es done t ≡ 0
    → IsReady es done t
unfolding pending
pending-IsReady [] done t h = tt
pending-IsReady (e ∷ es) done t h = (
  λ p.
      let q : str_eq e.target t ≡ true = (str_eq_iff e.target t).1 p in
      let k = rw q at h in ground (arith, k),
  pending-IsReady es done t (omega (arith, h)),
)

pub IsReady-pending :
    (es : List FlowEdge) (done : List String) (t : String)
    → IsReady es done t
    → pending es done t ≡ 0
unfolding pending
IsReady-pending [] done t h = refl
IsReady-pending (e ∷ es) done t h = elim (Bool-cases (str_eq e.target t)) [
  | inl p ↦
      let k : 0 < occ e.source done = h.0 ((str_eq_iff e.target t).0 p) in
      rw p (ground (arith, k, IsReady-pending es done t h.1))
  | inr p ↦ rw p (omega (arith, IsReady-pending es done t h.1))
]

-- The steps of a list come after the sources of the edges to them.
abbrev pub IsOrdered : List FlowEdge → List String → List String → Type 0
IsOrdered edges before [] = Unit
IsOrdered edges before (x ∷ xs) = IsReady edges before x × IsOrdered edges (before ++ x ∷ []) xs

pub IsOrdered-append :
    (es : List FlowEdge) (before xs : List String) (x : String)
    → IsOrdered es before xs
    → IsReady es (before ++ xs) x
    → IsOrdered es before (xs ++ x ∷ [])
IsOrdered-append es before [] x h k = (rw append-nil at k, tt)
IsOrdered-append es before (y ∷ ys) x h k =
    (h.0, IsOrdered-append es (before ++ y ∷ []) ys x h.1 (rw append_assoc k))

module _ {Node : Type 0} (id : Node → String) (locale_le : String → String → Bool) where
  occ-node_map :
      (nodes : List Node) (t : String)
      → occ t (map id nodes) ≤ 1
      → ((node_map id nodes t ≡ none) × (occ t (map id nodes) ≡ 0))
        ⊎ ((n : Node) × (node_map id nodes t ≡ some n) × (id n ≡ t) × (occ t (map id nodes) ≡ 1))
  unfolding occ node_map
  occ-node_map [] t h = inl (refl, refl)
  occ-node_map (n ∷ ns) t h = elim (occ-node_map ns t (omega (arith, h))) [
    | inl (e, z) ↦ elim (Bool-cases (str_eq (id n) t)) [
      | inl p ↦ inr (n, rw (e, p) refl, (str_eq_iff (id n) t).0 p, rw (p, z) refl)
      | inr p ↦ inl (rw (e, p) refl, rw (p, z) refl)
    ]
    | inr (m, e, q, z) ↦ inr (m, rw e refl, q, ground (arith, h, z))
  ]

  -- The number of times that the inner loop puts a step on the queue.
  abbrev pub gain : List Node → List String → (String → ℕ) → String → ℕ
  gain nodes ts base t =
      if base t == 0 then (if occ t ts == 0 then 0 else occ t (map id nodes)) else 0

  occ-enqueue :
      (nodes : List Node) (u x : String) (queue : List Node)
      → occ u (map id nodes) ≤ 1
      → occ x (map id (enqueue id locale_le (node_map id nodes u) queue))
        ≡ occ x (map id queue) + (if str_eq u x then occ u (map id nodes) else 0)
  occ-enqueue nodes u x queue h = elim (occ-node_map nodes u h) [
    | inl (e, z) ↦ rw (e, z) (ground arith)
    | inr (n, e, q, z) ↦
        rw (e, z) (ground (arith, occ-sort id (by_id id locale_le) x (queue ++ n ∷ []), last n q))
  ]
    where
      last :
          (n : Node)
          → id n ≡ u
          → occ x (map id (queue ++ n ∷ [])) ≡ occ x (map id queue) + (if str_eq u x then 1 else 0)
      last n q = rw (map-append, occ-append, q) (omega (arith, occ-one u x))

  -- The inner loop takes one off the count of each target and queues those that reach zero.
  pub release_lem :
      (nodes : List Node) (ts : List String) (counts : String → ℤ) (queue : List Node)
      (base : String → ℕ)
      → ((t : String) → occ t (map id nodes) ≤ 1)
      → ((t : String) → counts t ≡ pos (base t + occ t ts))
      → (x : String)
      → ((release id locale_le nodes ts counts queue).0 x ≡ pos (base x))
        × (occ x (map id (release id locale_le nodes ts counts queue).1)
            ≡ occ x (map id queue) + gain nodes ts base x)
  unfolding release occ
  release_lem nodes [] counts queue base once h x =
      (rw (h x) (ap {B = ℤ} (λ (n : ℕ). pos n) (omega arith)), ground arith)
  release_lem nodes (u ∷ ts) counts queue base once h x =
      let ih =
        release_lem nodes ts (λ k. if str_eq u k then decrement (counts u) else counts k)
          (if is_zero (decrement (counts u))
            then enqueue id locale_le (node_map id nodes u) queue
            else queue)
          base once next x in
      (ih.0, ih.1 ∙ gains)
    where
      at : decrement (counts u) ≡ pos (base u + occ u ts)
      at =
          let k : base u + occ u (u ∷ ts) ≡ suc (base u + occ u ts) = rw eq_refl (omega arith) in
          ap decrement (h u ∙ ap {B = ℤ} (λ (n : ℕ). pos n) k)

      next :
          (t : String)
          → (if str_eq u t then decrement (counts u) else counts t) ≡ pos (base t + occ t ts)
      next t = elim (Bool-cases (str_eq u t)) [
        | inl e ↦ let q : u ≡ t = (str_eq_iff u t).0 e in rw (e, at, q) refl
        | inr e ↦ rw (e, h t, e) (ap {B = ℤ} (λ (n : ℕ). pos n) (omega arith))
      ]

      queue' : List Node
      queue' =
          if is_zero (decrement (counts u))
          then enqueue id locale_le (node_map id nodes u) queue
          else queue

      queued :
          occ x (map id queue')
          ≡ occ x (map id queue)
            + (if base u + occ u ts == 0
                then (if str_eq u x then occ u (map id nodes) else 0)
                else 0)
      queued = rw at (elim (Bool-cases (base u + occ u ts == 0)) [
        | inl e ↦ rw e (occ-enqueue nodes u x queue (once u))
        | inr e ↦ rw e (omega arith)
      ])

      gains :
          occ x (map id queue') + gain nodes ts base x
          ≡ occ x (map id queue) + gain nodes (u ∷ ts) base x
      gains = rw queued (elim (Bool-cases (str_eq u x)) [
        | inl e ↦ let q : u ≡ x = (str_eq_iff u x).0 e in rw (e, q) (ground arith)
        | inr e ↦ rw e (ground arith)
      ])
