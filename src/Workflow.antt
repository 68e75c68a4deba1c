-- ===== src/Workflow.antt =====
-- crates/comptrol-workflow/src/lib.rs: the workflow graph and its parts. A JSON value is an element
-- of the type `V`; a `BTreeMap` is a map whose list is in the order of its keys.
pub mod Validate
pub mod Executor
pub mod Ops
pub mod Speculative
pub mod Promotion
pub mod Examples
use comptrol.Base.{
  is_some, ℕ, String, Bool, true, false, ◌||◌, Option, none, some, List, [], ◌∷◌, ◌++◌, any, Map,
}
use comptrol.Json.{Json}

pub record WorkflowParameter : Type 0 where
  pub name : String
  pub parameter_type : String
  pub sensitive : Bool

pub data WorkflowNode (V : Type 0) : Type 0 where
  observe : String → Option String → WorkflowNode V
  assert : V → Option String → WorkflowNode V
  act : String → V → Option String → WorkflowNode V
  wait : String → ℕ → Option String → WorkflowNode V
  verify : V → Option String → WorkflowNode V
  checkpoint : String → Option String → WorkflowNode V
  branch : V → String → String → WorkflowNode V
  loop : String → Option String → ℕ → WorkflowNode V
  parallel_read : List String → Option String → WorkflowNode V
  return : V → WorkflowNode V

pub record Workflow (V : Type 0) : Type 0 where
  pub id : String
  pub version : ℕ
  pub intent : String
  pub parameters : List WorkflowParameter
  pub fingerprint : String
  pub start : String
  pub nodes : Map (WorkflowNode V)

abbrev pub edge_of : Option String → List String
edge_of none = []
edge_of (some next) = next ∷ []

module _ {V : Type 0} where
  unfoldable pub node_edges : WorkflowNode V → List String
  node_edges (observe intent next) = edge_of next
  node_edges (assert condition next) = edge_of next
  node_edges (act intent params next) = edge_of next
  node_edges (wait event timeout_ms next) = edge_of next
  node_edges (verify criterion next) = edge_of next
  node_edges (checkpoint name next) = edge_of next
  node_edges (branch condition if_true if_false) = if_true ∷ if_false ∷ []
  node_edges (loop body next max_iterations) = body ∷ edge_of next
  node_edges (parallel_read nodes next) = edge_of next
  node_edges (return value) = []

  -- The values of a node that `contains_executable_code` looks into.
  unfoldable pub code_values : WorkflowNode V → List V
  code_values (assert condition next) = condition ∷ []
  code_values (verify criterion next) = criterion ∷ []
  code_values (branch condition if_true if_false) = condition ∷ []
  code_values (return value) = value ∷ []
  code_values (act intent params next) = params ∷ []
  code_values _ = []

  unfoldable pub has_code_key : Json V → V → Bool
  has_code_key json value =
      is_some (json.member value "python")
      || (is_some (json.member value "javascript")
          || (is_some (json.member value "shell") || is_some (json.member value "eval")))

  unfoldable pub contains_executable_code : Json V → WorkflowNode V → Bool
  contains_executable_code json node = any (has_code_key json) (code_values node)
