-- ===== src/Suites/Validation.antt =====
-- The checks on a flow: `migrate` of test-suites/visual-dsl-migrator.service.ts, and `validateFlow`,
-- `validateNodeConfig` and `validateRequestNode` of test-suites/execution-plan-compiler.service.ts.
use testing_environment.Common.{
  ℕ, ◌+◌, String, Bool, true, false, not, ◌||◌, Option, none, some, List, [], ◌∷◌, map, ltb,
  if◌then◌else◌, is_some, or_else, str_eq,
}
use Prim.Native.String.{◌++◌ as text_append}
use testing_environment.Common.Text.{is_blank, is_blank_option}
use testing_environment.Common.Result.{Result, ok, err, ◌>>◌}
use testing_environment.Suites.Order.{FlowEdge, incoming}
use testing_environment.Suites.Flow.{
  Number, whole, below_zero, not_finite, FlowAssertion, RetryPolicy, RequestNode, NodeType,
  api_request, wait, poll_until, set_variable, assert, unsupported, FlowNode, FlowVersion,
  FlowSuite, CompileError, unsupported_version, suite_name_required, no_steps, id_required,
  duplicate_id, name_required, unsupported_type, wait_duration, variable_name_required,
  field_path_required, method_required, path_required, assertion_path_required,
  assertion_operator_required, poll_timeout, poll_interval, interval_over_timeout, missing_node,
  branching,
}

abbrev pub type_name : NodeType → String
type_name (api_request _) = "apiRequest"
type_name (wait _) = "wait"
type_name (poll_until _) = "pollUntil"
type_name (set_variable _) = "setVariable"
type_name (assert _) = "assert"
type_name (unsupported name) = name

-- The `version` that a step gets from its type.
abbrev pub version_of_type : NodeType → String
version_of_type (api_request _) = "apiRequest/v1"
version_of_type (wait _) = "wait/v1"
version_of_type (poll_until _) = "pollUntil/v1"
version_of_type (set_variable _) = "setVariable/v1"
version_of_type (assert _) = "assert/v1"
version_of_type (unsupported name) = text_append name "/v1"

abbrev pub default_timeout_ms : NodeType → Number
default_timeout_ms (wait _) = whole 60000
default_timeout_ms _ = whole 30000

abbrev pub default_retry_policy : RetryPolicy
default_retry_policy = record { max_attempts = whole 1; backoff_ms = whole 0 }

-- `x === true` of an optional flag
abbrev pub is_true : Option Bool → Bool
is_true none = false
is_true (some b) = b

unfoldable pub migrate_node : FlowNode → FlowNode
migrate_node n = record n {
  version = some (or_else n.version (version_of_type n.type));
  timeout_ms = some (or_else n.timeout_ms (default_timeout_ms n.type));
  retry_policy = some (or_else n.retry_policy default_retry_policy);
  continue_on_failure = some (is_true n.continue_on_failure);
}

abbrev pub is_supported_version : FlowVersion → Bool
is_supported_version FlowVersion.v1_0 = true
is_supported_version FlowVersion.v1_1 = true
is_supported_version FlowVersion.other = false

unfoldable pub migrate : FlowSuite → Result CompileError FlowSuite
unfolding migrate_node
migrate flow =
    if is_supported_version flow.version
    then ok (record flow {
      version = FlowVersion.v1_1;
      nodes = map migrate_node flow.nodes;
      edges = some (or_else flow.edges []);
    })
    else err unsupported_version

-- `Number.isFinite(x) && x > 0`
abbrev pub is_positive : Number → Bool
is_positive (whole n) = ltb 0 n
is_positive (below_zero n) = false
is_positive not_finite = false

-- `a > b` of two numbers that are positive
abbrev pub exceeds : Number → Number → Bool
exceeds (whole a) (whole b) = ltb b a
exceeds (whole a) (below_zero b) = true
exceeds (below_zero a) (below_zero b) = ltb a b
exceeds _ _ = false

-- `if (test) throw error`
abbrev pub throw_if : Bool → CompileError → Result CompileError Unit
throw_if true e = err e
throw_if false e = ok tt

unfoldable pub validate_assertions : String → List FlowAssertion → Result CompileError Unit
validate_assertions name [] = ok tt
validate_assertions name (a ∷ rest) = do
  throw_if (is_blank_option a.field_path) (assertion_path_required name)
  throw_if (not (is_some a.operator)) (assertion_operator_required name)
  validate_assertions name rest

unfoldable pub validate_request_node : String → RequestNode → Result CompileError Unit
unfolding validate_assertions
validate_request_node name node = do
  throw_if (is_blank node.method) (method_required name)
  throw_if (is_blank node.path) (path_required name)
  validate_assertions name (or_else node.assertions [])

unfoldable pub validate_node_config : String → NodeType → Result CompileError Unit
unfolding validate_request_node
validate_node_config name (wait duration) =
    throw_if (not (is_positive duration)) (wait_duration name)
validate_node_config name (set_variable node) =
    throw_if (is_blank node.variable_name) (variable_name_required name)
validate_node_config name (assert node) =
    throw_if (is_blank node.field_path) (field_path_required name)
validate_node_config name (poll_until node) = do
  validate_request_node name node.request
  throw_if (not (is_positive node.timeout_seconds)) (poll_timeout name)
  throw_if (not (is_positive node.interval_seconds)) (poll_interval name)
  throw_if (exceeds node.interval_seconds node.timeout_seconds) (interval_over_timeout name)
validate_node_config name (api_request node) = validate_request_node name node
-- not reached, and a step without a method
validate_node_config name (unsupported type) = err (method_required name)

unfoldable pub has : List String → String → Bool
has [] x = false
has (y ∷ ys) x = str_eq y x || has ys x

abbrev pub is_supported_node : NodeType → Bool
is_supported_node (unsupported _) = false
is_supported_node _ = true

-- The loop over the steps; the first argument is the set of the ids that have been seen.
unfoldable pub validate_nodes : List String → List FlowNode → Result CompileError Unit
unfolding validate_node_config has
validate_nodes seen [] = ok tt
validate_nodes seen (n ∷ ns) = do
  throw_if (is_blank n.id) id_required
  throw_if (has seen n.id) (duplicate_id n.id)
  throw_if (is_blank n.name) (name_required n.id)
  throw_if (not (is_supported_node n.type)) (unsupported_type (type_name n.type))
  validate_node_config n.name n.type
  validate_nodes (n.id ∷ seen) ns

-- `outgoingCount`
unfoldable pub outgoing_count : List FlowEdge → String → ℕ
outgoing_count [] s = 0
outgoing_count (e ∷ es) s = (if str_eq e.source s then 1 else 0) + outgoing_count es s

unfoldable pub validate_edges : List String → List FlowEdge → Result CompileError Unit
unfolding has
validate_edges ids [] = ok tt
validate_edges ids (e ∷ es) = do
  throw_if (not (has ids e.source) || not (has ids e.target)) missing_node
  validate_edges ids es

unfoldable pub has_branching : List FlowEdge → List String → Bool
unfolding incoming outgoing_count
has_branching edges [] = false
has_branching edges (x ∷ xs) =
    ltb 1 (incoming edges x) || ltb 1 (outgoing_count edges x) || has_branching edges xs

abbrev pub is_empty : {A : Type 0} → List A → Bool
is_empty [] = true
is_empty (x ∷ xs) = false

-- The ids of the steps, and the edges of a flow that has been migrated.
abbrev pub node_ids : FlowSuite → List String
node_ids flow = map (λ n. n.id) flow.nodes

abbrev pub flow_edges : FlowSuite → List FlowEdge
flow_edges flow = or_else flow.edges []

unfoldable pub validate_flow : FlowSuite → Result CompileError Unit
unfolding validate_nodes validate_edges has_branching
validate_flow flow = do
  throw_if (is_blank flow.suite_name) suite_name_required
  throw_if (is_empty flow.nodes) no_steps
  validate_nodes [] flow.nodes
  validate_edges (node_ids flow) (flow_edges flow)
  throw_if (has_branching (flow_edges flow) (node_ids flow)) branching
