-- ===== src/Workflow/Validate.antt =====
-- `validate_workflow` of crates/comptrol-workflow/src/lib.rs.
pub mod Wellformed
use comptrol.Base.{
  ℕ, ◌+◌, String, str_append, Bool, true, false, not, ◌||◌, Option, none, some, List, [], ◌∷◌, ltb,
  nat_eq, ◌==◌, eq_string, any, Map, values, contains_key, Result, ok, err, ◌>>◌, ensure,
}
use comptrol.Json.{Json}
use comptrol.Workflow.{Workflow, WorkflowNode, loop, node_edges, contains_executable_code}

module _ {V : Type 0} where
  -- A loop whose bound is zero or more than 10,000.
  unfoldable pub unsafe_bound : WorkflowNode V → Bool
  unsafe_bound (loop body next max_iterations) = nat_eq max_iterations 0 || ltb 10000 max_iterations
  unsafe_bound _ = false

  pub check_edges : Map (WorkflowNode V) → String → List String → Result String (Unit {0})
  check_edges nodes id [] = ok tt
  check_edges nodes id (next ∷ rest) =
      ensure (contains_key nodes next)
        (str_append "node " (str_append id (str_append " references missing node " next)))
      >> check_edges nodes id rest

  -- The loop over the nodes; the first argument is the whole map, the second what is left of it.
  pub check_nodes : Map (WorkflowNode V) → Map (WorkflowNode V) → Result String (Unit {0})
  unfolding check_edges
  check_nodes nodes [] = ok tt
  check_nodes nodes ((id, node) ∷ rest) =
      ensure (not (unsafe_bound node))
        (str_append "loop " (str_append id " has an unsafe iteration bound"))
      >> (check_edges nodes id (node_edges node) >> check_nodes nodes rest)

  unfoldable pub validate_workflow : Json V → Workflow V → Result String (Unit {0})
  unfolding check_nodes
  validate_workflow json w =
      ensure (not (nat_eq w.version 0 || (w.id == "" || w.intent == "")))
        "workflow identity and positive version are required"
      >> (ensure (contains_key w.nodes w.start) "workflow start node is missing"
          >> (ensure (not (any (contains_executable_code json) (values w.nodes)))
                "workflow nodes cannot contain arbitrary executable code"
              >> check_nodes w.nodes w.nodes))
