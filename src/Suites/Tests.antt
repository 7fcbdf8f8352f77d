-- ===== src/Suites/Tests.antt =====
-- A flow of two steps that is compiled, and the theorems about the compiler at it.
use testing_environment.Common.{
  if◌then◌else◌, ℕ, ◌≤◌, String, ◌≡◌, refl, ◌↔◌, Bool, true, false, none, some, List, [], ◌∷◌, map,
  length, arith, str_eq,
}
use testing_environment.Common.Text.{trim, is_blank}
use testing_environment.Common.Result.{Result, ok, err}
use testing_environment.Suites.Order.{FlowEdge, sort_nodes, drain, start, incoming, roots}
use testing_environment.Suites.Order.Counting.{occ}
use testing_environment.Suites.Order.Invariant.{IsOrdered}
use testing_environment.Suites.Order.Topological.{drain-queue, sort_nodes-IsOrdered}
use testing_environment.Suites.Order.Cycles.{sort_nodes_iff}
use testing_environment.Suites.Order.Topological.{IsAcyclic}
use testing_environment.Suites.Flow.{
  whole, NodeType, FlowNode, FlowVersion, FlowSuite, CompileError, ExecutionStep, StepConfig,
}
use testing_environment.Suites.Validation.{
  migrate, validate_flow, validate_nodes, validate_node_config, has, node_ids, flow_edges,
}
use testing_environment.Suites.Compiler.{
  CompileOptions, Compiled, compile_visual, draft_plan, normalize_plan, build_warnings,
  all_variables,
}
use testing_environment.Suites.Plan.{compile_visual-IsOrdered, built, validate_nodes-once}
use testing_environment.Suites.Dependencies.{
  sources, listed, listed-compile_visual, compile_visual-acyclic,
}
use testing_environment.Suites.Warnings.{build_warnings_iff}

abbrev pause : String → FlowNode
pause id = record {
  id = id;
  name = "Pause";
  type = NodeType.wait (whole 5);
  version = none;
  timeout_ms = none;
  retry_policy = none;
  continue_on_failure = none;
}

abbrev edge : String → String → FlowEdge
edge source target = record { source = source; target = target }

abbrev flow : FlowSuite
flow = record {
  version = FlowVersion.v1_0;
  suite_name = "Suite";
  nodes = pause "a" ∷ pause "b" ∷ [];
  edges = some (edge "b" "a" ∷ []);
}

abbrev options : CompileOptions
options = record { suite_revision_id = none; timeout_ms = none }

-- An order of texts, and an upper case, that stand for the library's.
abbrev always : String → String → Bool
always a b = true

abbrev same : String → String
same s = s

checks : Unit {0}
unfolding compile_visual migrate validate_flow sort_nodes draft_plan normalize_plan occ incoming
    roots validate_nodes validate_node_config has build_warnings is_blank
checks = tt

step_ids : Result CompileError Compiled → List String
step_ids (ok c) = map (λ (s : ExecutionStep). s.id) c.plan.steps
step_ids (err e) = []

compile_tests :
    (step_ids (compile_visual always always same options flow) ≡ "b" ∷ "a" ∷ [])
    × (compile_visual always always same options
          (record flow { edges = some (edge "b" "a" ∷ edge "a" "b" ∷ []) })
        ≡ err CompileError.cycle)
    × (compile_visual always always same options (record flow { edges = some (edge "b" "c" ∷ []) })
        ≡ err CompileError.missing_node)
    × (compile_visual always always same options
          (record flow { nodes = pause "a" ∷ pause "a" ∷ [] })
        ≡ err (CompileError.duplicate_id "a"))
unfolding step_ids checks
compile_tests = (refl, refl, refl, refl)

abbrev pausing : String → FlowNode
pausing id = record (pause id) {
  version = some "wait/v1";
  timeout_ms = some (whole 60000);
  retry_policy = some (record { max_attempts = whole 1; backoff_ms = whole 0 });
  continue_on_failure = some false;
}

abbrev migrated : FlowSuite
migrated = record flow { version = FlowVersion.v1_1; nodes = pausing "a" ∷ pausing "b" ∷ [] }

abbrev in_order : List FlowNode
in_order = pausing "b" ∷ pausing "a" ∷ []

compile_visual-IsOrdered_example :
    (ordered : List FlowNode) × IsOrdered (flow_edges flow) [] (map (λ n. n.id) ordered)
    × ((t : String) → occ t (map (λ n. n.id) ordered) ≡ occ t (node_ids flow))
    × (map
          (λ (s : ExecutionStep). s.id)
          (built always always same options migrated in_order).plan.steps
        ≡ map (λ n. trim n.id) ordered)
    × ((built always always same options migrated in_order).tests_count ≡ length ordered)
unfolding checks built
compile_visual-IsOrdered_example =
    compile_visual-IsOrdered always always same options flow
      (built always always same options migrated in_order) refl

abbrev rank : String → ℕ
rank id = if str_eq id "b" then 0 else 1

compile_visual-acyclic_example :
    (c : Compiled) × (compile_visual always always same options flow ≡ ok c)
unfolding checks
compile_visual-acyclic_example =
    compile_visual-acyclic always always same options flow migrated rank refl refl
      ((omega arith, omega arith), tt)

once :
    (nodes : List FlowNode)
    → validate_nodes [] nodes ≡ ok tt
    → (t : String) → occ t (map (λ n. n.id) nodes) ≤ 1
unfolding occ
once nodes h t = omega (arith, validate_nodes-once [] nodes h (λ u. omega arith) t)

drain-queue_example :
    (drain
      (λ (n : FlowNode). n.id)
      always
      always
      2
      migrated.nodes
      (flow_edges flow)
      (start (λ (n : FlowNode). n.id) always always migrated.nodes (flow_edges flow))).queue
    ≡ []
unfolding checks
drain-queue_example =
    drain-queue (λ (n : FlowNode). n.id) always always migrated.nodes (flow_edges flow)
      (once migrated.nodes refl)

sort_nodes-IsOrdered_example :
    IsOrdered (flow_edges flow) [] ("b" ∷ "a" ∷ [])
    × ((t : String) → occ t ("b" ∷ "a" ∷ []) ≡ occ t ("a" ∷ "b" ∷ []))
unfolding checks
sort_nodes-IsOrdered_example =
    sort_nodes-IsOrdered (λ (n : FlowNode). n.id) always always migrated.nodes (flow_edges flow)
      (once migrated.nodes refl) in_order refl

listed-compile_visual_example :
    listed "b" "a" (built always always same options migrated in_order).plan.dependencies
    ≡ occ "b" (sources (flow_edges flow) "a")
unfolding checks built
listed-compile_visual_example =
    listed-compile_visual always always same options flow
      (built always always same options migrated in_order) "b" "a" refl

abbrev setting : ExecutionStep
setting = record {
  id = "s";
  name = "Set";
  version = "setVariable/v1";
  config = StepConfig.set_variable "token" none none none;
  timeout_ms = whole 30000;
  retry_policy = record { max_attempts = whole 1; backoff_ms = whole 0 };
  continue_on_failure = false;
}

build_warnings_iff_example :
    (build_warnings always always same (setting ∷ setting ∷ []) ≡ [])
    ↔ ((x : String) → occ x (map (λ v. v.name) (all_variables (setting ∷ setting ∷ []))) ≤ 1)
build_warnings_iff_example =
    build_warnings_iff always always same (setting ∷ setting ∷ []) (refl, (refl, tt))

sort_nodes_iff_example :
    ((ordered : List FlowNode) × (sort_nodes
          (λ (n : FlowNode). n.id)
          always
          always
          migrated.nodes
          (edge "b" "a" ∷ edge "a" "b" ∷ [])
        ≡ ok ordered))
    ↔ ((rank : String → ℕ) × IsAcyclic ("a" ∷ "b" ∷ []) rank (edge "b" "a" ∷ edge "a" "b" ∷ []))
unfolding checks
sort_nodes_iff_example =
    sort_nodes_iff (λ (n : FlowNode). n.id) always always migrated.nodes
      (edge "b" "a" ∷ edge "a" "b" ∷ []) (once migrated.nodes refl)
      ((omega arith, omega arith), ((omega arith, omega arith), tt))
