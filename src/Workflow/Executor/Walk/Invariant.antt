-- ===== src/Workflow/Executor/Walk/Invariant.antt =====
-- The invariant of the executor's state, and what one turn of the loop may come to.
use comptrol.Base.{
  ℕ, ◌≤◌, ◌≡◌, ◌⊎◌, String, true, Option, none, some, List, eq_string, Map, get, contains_key, Has,
  Result, err,
}
use comptrol.Workflow.{
  Workflow, WorkflowNode, observe, assert, act, wait, verify, checkpoint, branch, loop,
  parallel_read, return,
}
use comptrol.Workflow.Executor.{ExecState, ExecutionError, missing_node, Next, continue, finish}

-- Where a node goes on to, if it has a field for that.
abbrev pub exit_of : {V : Type 0} → WorkflowNode V → Option (Option String)
exit_of (observe intent next) = some next
exit_of (assert condition next) = some next
exit_of (act intent params next) = some next
exit_of (wait event timeout_ms next) = some next
exit_of (verify criterion next) = some next
exit_of (checkpoint name next) = some next
exit_of (loop body next most) = some next
exit_of (parallel_read nodes next) = some next
exit_of (branch condition if_true if_false) = none
exit_of (return value) = none

module _ {V : Type 0} (w : Workflow V) where
  -- Every count belongs to a loop node and is at most its bound.
  abbrev pub CountsWithin : Map ℕ → Type 0
  CountsWithin counts =
      (id : String) (n : ℕ)
      → get counts id ≡ some n
      → (body : String) × (next : Option String) × (most : ℕ) × (get w.nodes id
          ≡ some (loop body next most))
        × (n ≤ most)

  pub record Inv (s : ExecState V) : Type 0 where
    pub in_graph : contains_key w.nodes s.current ≡ true
    pub counted : CountsWithin s.loop_counts

  -- A node of the graph that has no next node, or a node that a `ParallelRead` names and the
  -- graph does not have.
  abbrev pub DeadEnd : String → Type 0
  DeadEnd id = (node : WorkflowNode V) × (get w.nodes id ≡ some node) × (exit_of node ≡ some none)

  abbrev pub ReadsMissing : String → Type 0
  ReadsMissing id =
      (at : String) × (ids : List String) × (next : Option String) × (get w.nodes at
        ≡ some (parallel_read ids next))
      × Has id ids
      × (get w.nodes id ≡ none)

  -- What a turn may come to: a state that keeps the invariant, or an answer; a missing node has
  -- one of the two causes.
  abbrev pub Answer : Result ExecutionError V → Type 0
  Answer (err (missing_node id)) = DeadEnd id ⊎ ReadsMissing id
  Answer _ = Unit

  abbrev pub Turn : Next V → Type 0
  Turn (continue t) = Inv t
  Turn (finish answer) = Answer answer
