-- ===== src/Suites/Compiler.antt =====
-- `compileVisual` of test-suites/execution-plan-compiler.service.ts, with the plan's dependencies, variables
-- and warnings, and `normalizePlan` of test-suites/yaml-suite-adapter.service.ts.
use Prim.Native.String.{◌++◌ as text_append}
use testing_environment.Common.{
  ℕ, String, Bool, Option, none, some, List, [], ◌∷◌, ◌++◌, map, length, if◌then◌else◌, or_else,
  str_eq,
}
use testing_environment.Common.Text.{trim}
use testing_environment.Common.Result.{Result, ok, err, ◌>>=◌, ◌>>◌}
use testing_environment.Suites.Order.{FlowEdge, sort, sort_nodes, FlowError}
use testing_environment.Suites.Flow.{
  Number, whole, RetryPolicy, FlowNode, FlowSuite, CompileError, cycle, api_request, poll_until,
  set_variable, ExecutionStep, VariableDefinition, ExecutionPlan,
}
use testing_environment.Suites.Validation.{migrate, validate_flow, flow_edges, is_positive}
use testing_environment.Suites.Steps.{to_execution_step}

-- `dependencies[target] = [...(dependencies[target] ?? []), source].sort()`
unfoldable pub add_dependency :
    (String → String → Bool) → FlowEdge → List (String × List String) → List (String × List String)
unfolding sort
add_dependency le e [] = (e.target, e.source ∷ []) ∷ []
add_dependency le e ((k, sources) ∷ rest) =
    if str_eq k e.target
    then (k, sort le (sources ++ e.source ∷ [])) ∷ rest
    else (k, sources) ∷ add_dependency le e rest

unfoldable pub add_dependencies :
    (String → String → Bool)
    → List FlowEdge
    → List (String × List String)
    → List (String × List String)
unfolding add_dependency
add_dependencies le [] deps = deps
add_dependencies le (e ∷ es) deps = add_dependencies le es (add_dependency le e deps)

unfoldable pub to_dependency_record :
    (String → String → Bool) → List String → List FlowEdge → List (String × List String)
unfolding add_dependencies
to_dependency_record le ids edges = add_dependencies le edges (map (λ x. (x, [])) ids)

abbrev pub saved : String → Option (List (String × String)) → List VariableDefinition
saved step_id none = []
saved step_id (some es) = map (λ e. record { name = e.0; source_step_id = step_id; path = e.1 }) es

-- The variables that one step saves.
unfoldable pub step_variables : ExecutionStep → List VariableDefinition
step_variables step = elim step.config [
  | api_request request ↦ saved step.id request.save
  | poll_until request timeout interval message ↦ saved step.id request.save
  | set_variable name value from path ↦
      record { name = name; source_step_id = step.id; path = or_else path "$" } ∷ []
  | _ ↦ []
]

unfoldable pub all_variables : List ExecutionStep → List VariableDefinition
unfolding step_variables
all_variables [] = []
all_variables (s ∷ ss) = step_variables s ++ all_variables ss

-- `savedBy.get`, where a later entry replaces an earlier; the last comes first here.
unfoldable pub owner_of : String → List (String × String) → Option String
owner_of name [] = none
owner_of name ((k, owner) ∷ rest) = if str_eq k name then some owner else owner_of name rest

-- A variable that two steps save: its name, the earlier step and the later.
pub record Warning : Type 0 where
  pub name : String
  pub first : String
  pub second : String

-- `if (owner) warnings.push(…)`, where an empty text counts as none
abbrev warn : VariableDefinition → Option String → List Warning → List Warning
warn v none rest = rest
warn v (some owner) rest =
    if str_eq owner ""
    then rest
    else record { name = v.name; first = owner; second = v.source_step_id } ∷ rest

unfoldable pub warnings_from : List (String × String) → List VariableDefinition → List Warning
unfolding owner_of
warnings_from saved_by [] = []
warnings_from saved_by (v ∷ vs) =
    warn v (owner_of v.name saved_by) (warnings_from ((v.name, v.source_step_id) ∷ saved_by) vs)

abbrev pub positive_number : Number → Number → Number
positive_number value fallback = if is_positive value then value else fallback

abbrev pub non_negative_number : Number → Number → Number
non_negative_number (whole n) fallback = whole n
non_negative_number _ fallback = fallback

abbrev pub normalize_retry_policy : RetryPolicy → RetryPolicy
normalize_retry_policy p = record {
  max_attempts = positive_number p.max_attempts (whole 1);
  backoff_ms = non_negative_number p.backoff_ms (whole 0);
}

unfoldable pub normalize_step : ExecutionStep → ExecutionStep
unfolding trim
normalize_step s = record s {
  id = trim s.id;
  name = trim s.name;
  timeout_ms = positive_number s.timeout_ms (whole 30000);
  retry_policy = normalize_retry_policy s.retry_policy;
}

-- `x || fallback` of a text
abbrev text_or : String → String → String
text_or s fallback = if str_eq s "" then fallback else s

pub record CompileOptions : Type 0 where
  pub suite_revision_id : Option String
  pub timeout_ms : Option Number

pub record Compiled : Type 0 where
  pub plan : ExecutionPlan
  pub tests_count : ℕ
  pub warnings : List Warning

abbrev pub or_cycle : Result FlowError (List FlowNode) → Result CompileError (List FlowNode)
or_cycle (ok nodes) = ok nodes
or_cycle (err _) = err cycle

module _ (locale_le code_le : String → String → Bool) (upper : String → String) where
  unfoldable pub collect_variables : List ExecutionStep → List VariableDefinition
  unfolding all_variables sort
  collect_variables steps = sort (λ a b. locale_le a.name b.name) (all_variables steps)

  unfoldable pub build_warnings : List ExecutionStep → List Warning
  unfolding collect_variables warnings_from
  build_warnings steps = warnings_from [] (collect_variables steps)

  abbrev pub sort_values : List (String × List String) → List (String × List String)
  sort_values [] = []
  sort_values ((k, values) ∷ rest) = (k, sort code_le values) ∷ sort_values rest

  unfoldable pub sort_dependency_record : List (String × List String) → List (String × List String)
  unfolding sort
  sort_dependency_record deps = sort_values (sort (λ a b. locale_le a.0 b.0) deps)

  -- `${name}:${sourceStepId}:${path}`
  abbrev variable_key : VariableDefinition → String
  variable_key v =
      text_append v.name (text_append ":" (text_append v.source_step_id (text_append ":" v.path)))

  unfoldable pub normalize_plan : ExecutionPlan → ExecutionPlan
  unfolding normalize_step sort_dependency_record sort trim
  normalize_plan plan = record {
    suite_revision_id = text_or plan.suite_revision_id "draft";
    suite_name = text_or (trim plan.suite_name) "Unnamed suite";
    steps = map normalize_step plan.steps;
    dependencies = sort_dependency_record plan.dependencies;
    variables = sort (λ a b. locale_le (variable_key a) (variable_key b)) plan.variables;
    timeout_ms = positive_number plan.timeout_ms (whole 300000);
  }

  abbrev order : FlowSuite → Result CompileError (List FlowNode)
  order flow =
      or_cycle (sort_nodes (λ (n : FlowNode). n.id) locale_le code_le flow.nodes (flow_edges flow))

  -- The plan before it is normalized, of a flow in order.
  unfoldable pub draft_plan : CompileOptions → FlowSuite → List FlowNode → ExecutionPlan
  unfolding to_dependency_record to_execution_step collect_variables trim
  draft_plan options flow ordered =
      let steps = map (to_execution_step upper) ordered in
      record {
        suite_revision_id = or_else options.suite_revision_id "draft";
        suite_name = trim flow.suite_name;
        steps = steps;
        dependencies = to_dependency_record code_le (map (λ n. n.id) ordered) (flow_edges flow);
        variables = collect_variables steps;
        timeout_ms = or_else options.timeout_ms (whole 300000);
      }

  -- No step of a visual flow is a sequence, so that each counts as a test.
  unfoldable pub compile_visual : CompileOptions → FlowSuite → Result CompileError Compiled
  unfolding migrate validate_flow sort_nodes draft_plan normalize_plan build_warnings
      to_execution_step
  compile_visual options flow = do
    migrated ← migrate flow
    validate_flow migrated
    ordered ← order migrated
    ok (record {
      plan = normalize_plan (draft_plan options migrated ordered);
      tests_count = length ordered;
      warnings = build_warnings (map (to_execution_step upper) ordered);
    })
