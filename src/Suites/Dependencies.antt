-- ===== src/Suites/Dependencies.antt =====
-- The dependencies that a plan records, and that a flow without a cycle compiles.
use testing_environment.Common.{
  ℕ, ◌+◌, String, ◌≡◌, refl, Bool, List, [], ◌∷◌, map, if◌then◌else◌, str_eq, str_eq_iff, arith,
  Bool-cases, inl, inr,
}
use testing_environment.Common.Result.{ok}
use testing_environment.Suites.Order.{FlowEdge, insert, sort}
use testing_environment.Suites.Order.Counting.{
  occ, occ-append, occ-one, occ-cons, occ-nil, occ-sort_texts,
}
use testing_environment.Suites.Order.Topological.{IsAcyclic, sort_nodes-acyclic}
use testing_environment.Suites.Flow.{FlowNode, FlowSuite}
use testing_environment.Suites.Validation.{migrate, validate_flow, node_ids, flow_edges}
use testing_environment.Suites.Compiler.{
  CompileOptions, Compiled, compile_visual, to_dependency_record, add_dependency, add_dependencies,
  draft_plan, normalize_plan, sort_dependency_record, sort_values,
}
use testing_environment.Suites.Plan.{validate_flow-once, built, compiled_from}

-- The sources of the edges to a step.
abbrev pub sources : List FlowEdge → String → List String
sources [] t = []
sources (e ∷ es) t = if str_eq e.target t then e.source ∷ sources es t else sources es t

-- How often `s` stands under the key `t` of a record of dependencies.
abbrev pub listed : String → String → List (String × List String) → ℕ
listed s t [] = 0
listed s t ((k, ids) ∷ rest) = (if str_eq k t then occ s ids else 0) + listed s t rest

module _ (le : String → String → Bool) (s t : String) where
  add_dependency_lem :
      (e : FlowEdge) (deps : List (String × List String))
      → listed s t (add_dependency le e deps)
        ≡ listed s t deps + (if str_eq e.target t then occ s (e.source ∷ []) else 0)
  unfolding add_dependency
  add_dependency_lem e [] = omega arith
  add_dependency_lem e ((k, ids) ∷ rest) = elim (Bool-cases (str_eq k e.target)) [
    | inl p ↦
        let q : k ≡ e.target = (str_eq_iff k e.target).0 p in
        elim (Bool-cases (str_eq e.target t)) [
          | inl r ↦ rw (p, q, r, occ-sort_texts, occ-append) (omega arith)
          | inr r ↦ rw (p, q, r) (omega arith)
        ]
    | inr p ↦ rw p (omega (arith, add_dependency_lem e rest))
  ]

  add_dependencies_lem :
      (es : List FlowEdge) (deps : List (String × List String))
      → listed s t (add_dependencies le es deps) ≡ listed s t deps + occ s (sources es t)
  unfolding add_dependencies
  add_dependencies_lem [] deps = rw occ-nil (omega arith)
  add_dependencies_lem (e ∷ es) deps =
      let ih = add_dependencies_lem es (add_dependency le e deps) in
      let one = add_dependency_lem e deps in
      elim (Bool-cases (str_eq e.target t)) [
        | inl p ↦
            rw p (
              omega
                (arith, ih, rw p at one, occ-cons e.source (sources es t) s, occ-one e.source s))
        | inr p ↦ rw p (omega (arith, ih, rw p at one))
      ]

  nothing_yet : (ids : List String) → listed s t (map (λ x. (x, [])) ids) ≡ 0
  nothing_yet [] = refl
  nothing_yet (x ∷ xs) = elim (Bool-cases (str_eq x t)) [
    | inl p ↦ rw (p, occ-nil) (omega (arith, nothing_yet xs))
    | inr p ↦ rw p (omega (arith, nothing_yet xs))
  ]

  to_dependency_record_lem :
      (ids : List String) (edges : List FlowEdge)
      → listed s t (to_dependency_record le ids edges) ≡ occ s (sources edges t)
  unfolding to_dependency_record
  to_dependency_record_lem ids edges =
      omega (arith, add_dependencies_lem edges (map (λ x. (x, [])) ids), nothing_yet ids)

  listed-insert :
      (before : String × List String → String × List String → Bool) (e : String × List String)
      (deps : List (String × List String))
      → listed s t (insert before e deps) ≡ listed s t (e ∷ deps)
  unfolding insert
  listed-insert before e [] = refl
  listed-insert before e (d ∷ deps) = elim (Bool-cases (before e d)) [
    | inl p ↦ rw p refl
    | inr p ↦ rw p (omega (arith, listed-insert before e deps))
  ]

  listed-sort :
      (before : String × List String → String × List String → Bool)
      (deps : List (String × List String))
      → listed s t (sort before deps) ≡ listed s t deps
  unfolding sort
  listed-sort before [] = refl
  listed-sort before (e ∷ deps) =
      omega (arith, listed-insert before e (sort before deps), listed-sort before deps)

module _ (locale_le code_le : String → String → Bool) (upper : String → String)
    (options : CompileOptions) where
  listed-sort_values :
      (s t : String) (deps : List (String × List String))
      → listed s t (sort_values locale_le code_le upper deps) ≡ listed s t deps
  listed-sort_values s t [] = refl
  listed-sort_values s t ((k, ids) ∷ rest) =
      rw occ-sort_texts (omega (arith, listed-sort_values s t rest))

  -- In the dependencies of a plan, as the compiler returns it, the source of an edge stands under the id that the target
  -- has in the flow, as often as there is such an edge, and nothing else stands there.
  pub listed-compile_visual :
      (flow : FlowSuite) (c : Compiled) (s t : String)
      → compile_visual locale_le code_le upper options flow ≡ ok c
      → listed s t c.plan.dependencies ≡ occ s (sources (flow_edges flow) t)
  unfolding compile_visual draft_plan normalize_plan built sort_dependency_record
  listed-compile_visual flow c s t h =
      let (migrated, ordered, edges, same) =
        compiled_from locale_le code_le upper options flow c h in
      let deps = to_dependency_record code_le (map (λ n. n.id) ordered) (flow_edges migrated) in
      rw⁻¹ same (
        rw
          (
            listed-sort_values s t (sort (λ a b. locale_le a.0 b.0) deps),
            listed-sort code_le s t (λ a b. locale_le a.0 b.0) deps,
            to_dependency_record_lem code_le s t (map (λ n. n.id) ordered) (flow_edges migrated),
            edges,
          )
          refl)

  -- A flow that passes the checks, and whose steps have ranks that increase along each edge, compiles.
  pub compile_visual-acyclic :
      (flow migrated : FlowSuite) (rank : String → ℕ)
      → migrate flow ≡ ok migrated
      → validate_flow migrated ≡ ok tt
      → IsAcyclic (node_ids migrated) rank (flow_edges migrated)
      → (c : Compiled) × (compile_visual locale_le code_le upper options flow ≡ ok c)
  unfolding compile_visual built
  compile_visual-acyclic flow migrated rank p q acyclic =
      let (ordered, r) =
        sort_nodes-acyclic (λ (n : FlowNode). n.id) locale_le code_le migrated.nodes
          (flow_edges migrated) (validate_flow-once locale_le code_le upper options migrated q) rank
          acyclic in
      (built locale_le code_le upper options migrated ordered, rw (compile_visual, p, q, r) refl)
