-- ===== src/Suites/Flow.antt =====
-- The visual flow that a user draws (test-suites/types/flow-suite.types.ts), the plan that it is compiled to
-- (test-suites/types/execution-plan.types.ts), and the errors of the compiler.
use testing_environment.Common.{ℕ, String, Bool, Option, List}
use testing_environment.Suites.Order.{FlowEdge}

-- A value that JSON can hold. A number is its text.
mutual
  pub data Json : Type 0 where
    null : Json
    boolean : Bool → Json
    number : String → Json
    text : String → Json
    array : Items → Json
    object : Fields → Json

  pub data Items : Type 0 where
    end : Items
    item : Json → Items → Items

  pub data Fields : Type 0 where
    done : Fields
    field : String → Json → Fields → Fields

-- A number that the user enters: whole (a negative one as its opposite less one), or not finite.
pub data Number : Type 0 where
  whole : ℕ → Number
  below_zero : ℕ → Number
  not_finite : Number

pub data AssertionOperator : Type 0 where
  equals contains exists : AssertionOperator

pub record FlowAssertion : Type 0 where
  pub field_path : Option String
  pub operator : Option AssertionOperator
  pub expected_value : Option String

pub record RetryPolicy : Type 0 where
  pub max_attempts : Number
  pub backoff_ms : Number

-- What a step that sends a request has in common, `FlowApiNode` and `FlowPollUntilNode`.
pub record RequestNode : Type 0 where
  pub method : String
  pub path : String
  pub headers : Option (List (String × String))
  pub query : Option (List (String × Json))
  pub json_body : Option Json
  pub expect_status : Option ℕ
  pub json_contains : Option Json
  pub assertions : Option (List FlowAssertion)
  pub save : Option (List (String × String))

pub record PollNode : Type 0 where
  pub request : RequestNode
  pub timeout_seconds : Number
  pub interval_seconds : Number
  pub failure_message : Option String

pub record SetVariableNode : Type 0 where
  pub variable_name : String
  pub value : Option String
  pub from_step_id : Option String
  pub path : Option String

pub record AssertNode : Type 0 where
  pub source_step_id : Option String
  pub field_path : String
  pub operator : AssertionOperator
  pub expected_value : Option String

-- The `type` of a step and what comes with it; a type that is missing is `apiRequest`.
pub data NodeType : Type 0 where
  api_request : RequestNode → NodeType
  wait : Number → NodeType
  poll_until : PollNode → NodeType
  set_variable : SetVariableNode → NodeType
  assert : AssertNode → NodeType
  unsupported : String → NodeType

pub record FlowNode : Type 0 where
  pub id : String
  pub name : String
  pub type : NodeType
  pub version : Option String
  pub timeout_ms : Option Number
  pub retry_policy : Option RetryPolicy
  pub continue_on_failure : Option Bool

pub data FlowVersion : Type 0 where
  v1_0 v1_1 other : FlowVersion

pub record FlowSuite : Type 0 where
  pub version : FlowVersion
  pub suite_name : String
  pub nodes : List FlowNode
  pub edges : Option (List FlowEdge)

pub data CompileError : Type 0 where
  unsupported_version : CompileError
  suite_name_required : CompileError
  no_steps : CompileError
  id_required : CompileError
  duplicate_id : String → CompileError
  name_required : String → CompileError
  unsupported_type : String → CompileError
  wait_duration : String → CompileError
  variable_name_required : String → CompileError
  field_path_required : String → CompileError
  method_required : String → CompileError
  path_required : String → CompileError
  assertion_path_required : String → CompileError
  assertion_operator_required : String → CompileError
  poll_timeout : String → CompileError
  poll_interval : String → CompileError
  interval_over_timeout : String → CompileError
  missing_node : CompileError
  branching : CompileError
  cycle : CompileError

pub record ExecutionAssertion : Type 0 where
  pub field_path : String
  pub operator : AssertionOperator
  pub expected_value : Option String

pub record Expectation : Type 0 where
  pub status : ℕ
  pub json_contains : Option Json
  pub assertions : Option (List ExecutionAssertion)

pub record RequestConfig : Type 0 where
  pub method : String
  pub path : String
  pub headers : Option (List (String × String))
  pub query : Option (List (String × Json))
  pub json : Option Json
  pub expect : Expectation
  pub save : Option (List (String × String))

pub data StepConfig : Type 0 where
  api_request : RequestConfig → StepConfig
  wait : Number → StepConfig
  -- the request, the timeout, the interval and the failure message
  poll_until : RequestConfig → Number → Number → Option String → StepConfig
  -- the name, the value, the step and the path
  set_variable : String → Option String → Option String → Option String → StepConfig
  -- the step, the path, the operator and the expected value
  assert : Option String → String → AssertionOperator → Option String → StepConfig

pub record ExecutionStep : Type 0 where
  pub id : String
  pub name : String
  pub version : String
  pub config : StepConfig
  pub timeout_ms : Number
  pub retry_policy : RetryPolicy
  pub continue_on_failure : Bool

pub record VariableDefinition : Type 0 where
  pub name : String
  pub source_step_id : String
  pub path : String

pub record ExecutionPlan : Type 0 where
  pub suite_revision_id : String
  pub suite_name : String
  pub steps : List ExecutionStep
  pub dependencies : List (String × List String)
  pub variables : List VariableDefinition
  pub timeout_ms : Number
