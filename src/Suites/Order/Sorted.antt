-- ===== src/Suites/Order/Sorted.antt =====
-- What `sort_nodes` returns, and when it does.
use testing_environment.Common.{
  ℕ, zero, suc, ◌+◌, ◌≤◌, String, ◌≡◌, refl, sym, ap, ◌∙◌, Bool, List, [], ◌∷◌, ◌++◌, map,
  if◌then◌else◌, str_eq, str_eq_iff, arith, Bool-cases, inl, inr, ◌==◌,
}
use mathlib.Core.List.{map-append}
use text.Mathlib.TextPositions.{eq_refl}
use testing_environment.Suites.Order.{
  FlowEdge, ℤ, pos, incoming, outgoing, sort, State, roots, turn, drain, start, release,
}
use testing_environment.Suites.Order.Counting.{
  occ, occ-append, occ-one, occ-cons, occ-sort, occ-sort_texts,
}
use testing_environment.Suites.Order.Invariant.{
  pending, pending-step, pending-IsReady, IsOrdered, IsOrdered-append, gain, release_lem,
}

module _ {Node : Type 0} (id : Node → String) (locale_le code_le : String → String → Bool)
    (nodes : List Node) (edges : List FlowEdge) where
  -- The counts are those of the edges from steps that are still to come, and the steps that have been
  -- ordered or queued are those with no such edge, each once.
  pub record IsSound (s : State Node) : Type 0 where
    pub counted : (t : String) → s.counts t ≡ pos (pending edges (map id s.ordered) t)
    pub placed :
        (t : String)
        → occ t (map id s.ordered) + occ t (map id s.queue)
          ≡ (if pending edges (map id s.ordered) t == 0 then occ t (map id nodes) else 0)
    pub sorted : IsOrdered edges [] (map id s.ordered)

  abbrev pub Once : Type 0
  Once = (t : String) → occ t (map id nodes) ≤ 1

  after_turn :
      Once
      → (counts : String → ℤ) (queue ordered : List Node)
      → IsSound (record { counts = counts; queue = queue; ordered = ordered })
      → IsSound (
          turn id locale_le code_le nodes edges
            (record { counts = counts; queue = queue; ordered = ordered }))
  unfolding turn
  after_turn once counts [] ordered h = h
  after_turn once counts (n ∷ queue) ordered h = record {
    counted = λ t. rw map-append (released_lem t).0;
    placed = λ t.
        rw (map-append, (released_lem t).1)
          (rw (occ-append, occ-one)
            (ground (arith, h.placed t, occ-cons (id n) (map id queue) t, step t)));
    sorted = rw map-append (
        IsOrdered-append edges [] (map id ordered) (id n) h.sorted
          (pending-IsReady edges (map id ordered) (id n) fresh.1));
  }
    where
      fresh : (occ (id n) (map id ordered) ≡ 0) × (pending edges (map id ordered) (id n) ≡ 0)
      fresh =
          let here : occ (id n) (id n ∷ map id queue) ≡ suc (occ (id n) (map id queue)) =
            rw (occ-cons, eq_refl) (omega arith) in
          ground (arith, h.placed (id n), here, once (id n))

      targets : List String
      targets = sort code_le (outgoing edges (id n))

      step :
          (t : String)
          → pending edges (map id ordered) t
            ≡ pending edges (map id ordered ++ id n ∷ []) t + occ t targets
      step t = rw occ-sort_texts (pending-step edges (map id ordered) (id n) t fresh.0)

      released_lem :
          (x : String)
          → ((release id locale_le nodes targets counts queue).0 x
              ≡ pos (pending edges (map id ordered ++ id n ∷ []) x))
            × (occ x (map id (release id locale_le nodes targets counts queue).1)
                ≡ occ x (map id queue)
                  + gain id locale_le nodes targets (pending edges (map id ordered ++ id n ∷ [])) x)
      released_lem =
          release_lem id locale_le nodes targets counts queue
            (pending edges (map id ordered ++ id n ∷ [])) once
            (λ t. h.counted t ∙ ap {B = ℤ} (λ (n : ℕ). pos n) (step t))

  pub turn-IsSound :
      Once → (s : State Node) → IsSound s → IsSound (turn id locale_le code_le nodes edges s)
  turn-IsSound once s h = after_turn once s.counts s.queue s.ordered h

  pending_none : (es : List FlowEdge) (t : String) → pending es [] t ≡ incoming es t
  unfolding pending incoming occ
  pending_none [] t = refl
  pending_none (e ∷ es) t = omega (arith, pending_none es t)

  occ-roots :
      (t : String) (ns : List Node)
      → occ t (map id (roots id edges ns))
        ≡ (if incoming edges t == 0 then occ t (map id ns) else 0)
  unfolding roots occ
  occ-roots t [] = ground arith
  occ-roots t (n ∷ ns) = elim (Bool-cases (str_eq (id n) t)) [
    | inl e ↦
        let q : id n ≡ t = (str_eq_iff (id n) t).0 e in
        elim (Bool-cases (incoming edges t == 0)) [
          | inl z ↦ rw (q, z) (ground (arith, occ-roots t ns))
          | inr z ↦ rw (q, z) (ground (arith, occ-roots t ns))
        ]
    | inr e ↦ elim (Bool-cases (incoming edges (id n) == 0)) [
      | inl z ↦ rw (z, e) (ground (arith, occ-roots t ns))
      | inr z ↦ rw (z, e) (ground (arith, occ-roots t ns))
    ]
  ]

  pub start-IsSound : IsSound (start id locale_le code_le nodes edges)
  unfolding occ
  start-IsSound = record {
    counted = λ t. ap {B = ℤ} (λ (n : ℕ). pos n) (sym (pending_none edges t));
    placed = λ t. rw (pending_none, occ-sort, occ-roots) (omega arith);
    sorted = tt;
  }

  pub drain-IsSound :
      Once
      → (k : ℕ) (s : State Node) → IsSound s
      → IsSound (drain id locale_le code_le k nodes edges s)
  unfolding drain
  drain-IsSound once zero s h = h
  drain-IsSound once (suc k) s h = drain-IsSound once k _ (turn-IsSound once s h)
