-- ===== src/Suites/Plan.antt =====
-- What the compiler promises of a plan: its steps, their order and its dependencies.
use testing_environment.Common.{
  ◌+◌, ◌≤◌, String, ◌≡◌, refl, ap, Bool, false, some, List, [], ◌∷◌, map, length, or_else, str_eq,
  str_eq_iff, arith, Bool-cases, inl, inr,
}
use testing_environment.Common.Text.{trim}
use testing_environment.Common.Result.{ok, Result-cases}
use testing_environment.Suites.Order.{sort_nodes}
use testing_environment.Suites.Order.Counting.{occ, occ-cons, occ-nil}
use testing_environment.Suites.Order.Invariant.{IsOrdered}
use testing_environment.Suites.Order.Topological.{sort_nodes-IsOrdered}
use testing_environment.Suites.Flow.{FlowNode, FlowVersion, FlowSuite, ExecutionStep}
use testing_environment.Suites.Validation.{
  migrate, migrate_node, is_supported_version, validate_flow, validate_nodes, has, node_ids,
  flow_edges,
}
use testing_environment.Suites.Steps.{to_execution_step}
use testing_environment.Suites.Compiler.{
  CompileOptions, Compiled, compile_visual, draft_plan, normalize_plan, normalize_step,
  build_warnings,
}

occ-has : (xs : List String) (x : String) → has xs x ≡ false → occ x xs ≡ 0
unfolding has occ
occ-has [] x h = refl
occ-has (y ∷ ys) x h = ground (arith, occ-has ys x)

-- Steps that pass the checks have ids of their own.
pub validate_nodes-once :
    (seen : List String) (ns : List FlowNode)
    → validate_nodes seen ns ≡ ok tt
    → ((t : String) → occ t seen ≤ 1)
    → (t : String) → occ t seen + occ t (map (λ n. n.id) ns) ≤ 1
unfolding validate_nodes
validate_nodes-once seen [] h once t = rw occ-nil (omega (arith, once t))
validate_nodes-once seen (n ∷ ns) h once t =
    let (unseen, rest) = checks in
    let ih = validate_nodes-once (n.id ∷ seen) ns rest (next (occ-has seen n.id unseen)) t in
    rw occ-cons (omega (arith, ih, occ-cons n.id seen t))
  where
    checks : (has seen n.id ≡ false) × (validate_nodes (n.id ∷ seen) ns ≡ ok tt)
    checks = ground (arith, h)

    next : occ n.id seen ≡ 0 → (u : String) → occ u (n.id ∷ seen) ≤ 1
    next new u = elim (Bool-cases (str_eq n.id u)) [
      | inl e ↦
          let q : n.id ≡ u = (str_eq_iff n.id u).0 e in rw (occ-cons, e, ← q, new) (omega arith)
      | inr e ↦ rw (occ-cons, e) (omega (arith, once u))
    ]

module _ (locale_le code_le : String → String → Bool) (upper : String → String)
    (options : CompileOptions) where
  abbrev id_of : FlowNode → String
  id_of n = n.id

  pub validate_flow-once :
      (flow : FlowSuite) → validate_flow flow ≡ ok tt → (t : String) → occ t (node_ids flow) ≤ 1
  unfolding validate_flow
  validate_flow-once flow h t =
      let nodes : validate_nodes [] flow.nodes ≡ ok tt = ground (arith, h) in
      let k = validate_nodes-once [] flow.nodes nodes (λ u. rw occ-nil (omega arith)) t in
      omega (arith, k, occ-nil t)

  migrate_node-ids : (ns : List FlowNode) → map id_of (map migrate_node ns) ≡ map id_of ns
  unfolding migrate_node
  migrate_node-ids [] = refl
  migrate_node-ids (n ∷ ns) = ap {B = List String} (λ r. n.id ∷ r) (migrate_node-ids ns)

  -- Migration leaves the ids and the edges as they are.
  migrate-ids :
      (flow migrated : FlowSuite)
      → migrate flow ≡ ok migrated
      → (node_ids migrated ≡ node_ids flow) × (flow_edges migrated ≡ flow_edges flow)
  unfolding migrate
  migrate-ids flow migrated h = elim (Bool-cases (is_supported_version flow.version)) [
    | inl e ↦
        let k = rw e at h in
        let same : record flow {
          version = FlowVersion.v1_1;
          nodes = map migrate_node flow.nodes;
          edges = some (or_else flow.edges []);
        }
            ≡ migrated =
          cc in
        rw⁻¹ same (migrate_node-ids flow.nodes, refl)
    | inr e ↦ let k = rw e at h in cc
  ]

  step_ids :
      (ns : List FlowNode)
      → map (λ (s : ExecutionStep). s.id) (map normalize_step (map (to_execution_step upper) ns))
        ≡ map (λ n. trim n.id) ns
  unfolding normalize_step to_execution_step
  step_ids [] = refl
  step_ids (n ∷ ns) = ap {B = List String} (λ r. trim n.id ∷ r) (step_ids ns)

  -- What is returned for a flow that has been put in order.
  unfoldable pub built : FlowSuite → List FlowNode → Compiled
  unfolding draft_plan normalize_plan
  built migrated ordered = record {
    plan =
        normalize_plan locale_le code_le upper
          (draft_plan locale_le code_le upper options migrated ordered);
    tests_count = length ordered;
    warnings = build_warnings locale_le code_le upper (map (to_execution_step upper) ordered);
  }

  -- What a flow that compiles has passed through.
  pub compiled_from :
      (flow : FlowSuite) (c : Compiled)
      → compile_visual locale_le code_le upper options flow ≡ ok c
      → (migrated : FlowSuite) × (ordered : List FlowNode) × (flow_edges migrated ≡ flow_edges flow)
        × (built migrated ordered ≡ c)
  unfolding compile_visual built
  compiled_from flow c h = elim (Result-cases (migrate flow)) [
    | inl (e, p) ↦ let k = rw (compile_visual, p) at h in cc
    | inr (migrated, p) ↦ elim (Result-cases (validate_flow migrated)) [
      | inl (e, q) ↦ let k = rw (compile_visual, p, q) at h in cc
      | inr (u, q) ↦
          elim (Result-cases
            (sort_nodes id_of locale_le code_le migrated.nodes (flow_edges migrated))) [
              | inl (e, r) ↦ let k = rw (compile_visual, p, q, r) at h in cc
              | inr (ordered, r) ↦
                  let k = rw (compile_visual, p, q, r) at h in
                  (migrated, ordered, (migrate-ids flow migrated p).1, cc)
            ]
    ]
  ]

  -- A flow that compiles gives a plan whose steps are the flow's, each once and with its id trimmed, in an
  -- order in which each step follows the sources of all edges to it, and the number of tests is
  -- the number of steps.
  pub compile_visual-IsOrdered :
      (flow : FlowSuite) (c : Compiled)
      → compile_visual locale_le code_le upper options flow ≡ ok c
      → (ordered : List FlowNode) × IsOrdered (flow_edges flow) [] (map id_of ordered)
        × ((t : String) → occ t (map id_of ordered) ≡ occ t (node_ids flow))
        × (map (λ (s : ExecutionStep). s.id) c.plan.steps ≡ map (λ n. trim n.id) ordered)
        × (c.tests_count ≡ length ordered)
  unfolding compile_visual draft_plan normalize_plan built
  compile_visual-IsOrdered flow c h = elim (Result-cases (migrate flow)) [
    | inl (e, p) ↦ let k = rw (compile_visual, p) at h in cc
    | inr (migrated, p) ↦ elim (Result-cases (validate_flow migrated)) [
      | inl (e, q) ↦ let k = rw (compile_visual, p, q) at h in cc
      | inr (u, q) ↦
          elim (Result-cases
            (sort_nodes id_of locale_le code_le migrated.nodes (flow_edges migrated))) [
              | inl (e, r) ↦ let k = rw (compile_visual, p, q, r) at h in cc
              | inr (ordered, r) ↦
                  let k = rw (compile_visual, p, q, r) at h in
                  let same : built migrated ordered ≡ c = cc in
                  let found =
                    sort_nodes-IsOrdered id_of locale_le code_le migrated.nodes
                      (flow_edges migrated) (validate_flow-once migrated q) ordered r in
                  let (ids, edges) = migrate-ids flow migrated p in
                  (
                    ordered,
                    rw⁻¹ edges found.0,
                    rw⁻¹ ids found.1,
                    rw⁻¹ same (step_ids ordered),
                    rw⁻¹ same refl,
                  )
            ]
    ]
  ]
