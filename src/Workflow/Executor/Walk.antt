-- ===== src/Workflow/Executor/Walk.antt =====
-- Where a run of a valid workflow can be, how often a loop is entered, and how a run can lack a node.
pub mod Invariant
mod Turns
mod Reads
mod Counts
pub mod Entries
use comptrol.Base.{
  ℕ, zero, suc, ◌+◌, ◌≤◌, ◌≡◌, ◌≢◌, refl, sym, ap, subst, ◌∙◌, ◌⊎◌, inl, inr, String, Bool, true,
  false, Option, none, some, List, [], ◌∷◌, ◌==◌, eq_string, eq_iff, leb, Map, get, insert,
  get-insert, contains_key, contains_key-get, get-Has, Has, values, Result, ok, err, arith,
  Bool-cases, Option-cases, Result-cases, max, if◌then◌else◌,
}
use comptrol.Json.{Json}
use comptrol.Workflow.{
  Workflow, WorkflowNode, observe, assert, act, wait, verify, checkpoint, branch, loop,
  parallel_read, return, node_edges, edge_of,
}
use comptrol.Workflow.Validate.{validate_workflow}
use comptrol.Workflow.Validate.Wellformed.{IsValid, IsNodeValid, validate_iff}
use comptrol.Workflow.Executor.{
  WorkflowExecutor, ExecState, ExecutionError, missing_node, cancelled, step_budget_exceeded, Next,
  continue, finish, go_to, count_of, enter_loop, visit, step, run_loop, run_with_cancel, read_nodes,
  initial, after_action, after_check, after_wait, after_branch, after_read, after_reads, read_one,
  read_on, visit_found, resume,
}
use Invariant.{CountsWithin, Inv, exit_of, DeadEnd, ReadsMissing, Answer, Turn}
use Reads.{step-Turn}

-- The states that the loop of a run can be in, whatever the callbacks answer.
pub data Reach {V W : Type 0} (json : Json V) (x : WorkflowExecutor V W) (w : Workflow V)
    : ExecState V → Type 0 where
  start : Reach json x w (initial json x w)
  turn :
      {s t : ExecState V} (world : W)
      → Reach json x w s
      → (step json x w s world).0 ≡ continue t
      → Reach json x w t

module _ {V W : Type 0} (json : Json V) (x : WorkflowExecutor V W) (w : Workflow V) where
  initial-Inv : IsValid json w → Inv w (initial json x w)
  initial-Inv v = record { in_graph = v.start_there; counted = λ id n e. absurd (cc) }

  Reach-Inv : IsValid json w → {s : ExecState V} → Reach json x w s → Inv w s
  Reach-Inv v start = initial-Inv v
  Reach-Inv v (turn {s = s} world r e) =
      subst (Turn w) e (step-Turn json x w s world v (Reach-Inv v r))

  -- In every state that a run of a valid workflow can be in, the current node is in the graph, and
  -- a loop has been entered at most as often as its bound says; only loops are counted.
  pub reachable_within :
      (s : ExecState V)
      → IsValid json w
      → Reach json x w s
      → (contains_key w.nodes s.current ≡ true)
        × ((id : String) (n : ℕ)
            → get s.loop_counts id ≡ some n
            → (body : String) × (next : Option String) × (most : ℕ) × (get w.nodes id
                ≡ some (loop body next most))
              × (n ≤ most))
  reachable_within s v r = let h = Reach-Inv v r in (h.in_graph, h.counted)

  resume-Answer :
      (rest : ExecState V → W → Result ExecutionError V × W) (next : Next V × W)
      → ((s : ExecState V) (world : W) → Inv w s → Answer w (rest s world).0)
      → Turn w next.0
      → Answer w (resume json x w rest next).0
  unfolding resume
  resume-Answer rest (continue s, world) ih h = ih s world h
  resume-Answer rest (finish answer, world) ih h = h

  run_loop-Answer :
      (left : ℕ) (s : ExecState V) (world : W)
      → IsValid json w
      → Inv w s
      → Answer w (run_loop json x w left s world).0
  unfolding run_loop
  run_loop-Answer zero s world v h = elim (Bool-cases (x.is_cancelled world).0) [
    | inl stop ↦ rw stop tt
    | inr proceed ↦ rw proceed tt
  ]
  run_loop-Answer (suc left) s world v h = elim (Bool-cases (x.is_cancelled world).0) [
    | inl stop ↦ rw stop tt
    | inr proceed ↦ rw proceed (
        resume-Answer (run_loop json x w left) (step json x w s (x.is_cancelled world).1)
          (λ t world' h'. run_loop-Answer left t world' v h')
          (step-Turn json x w s (x.is_cancelled world).1 v h))
  ]

  -- A run that ends for want of a node was given a valid workflow, and the node is one of the graph
  -- with no next node, or one that a `ParallelRead` names and the graph lacks: an edge never leads
  -- out of the graph.
  pub missing_node_cause :
      (world : W) (id : String)
      → (run_with_cancel json x w world).0 ≡ err (missing_node id)
      → IsValid json w × (DeadEnd w id ⊎ ReadsMissing w id)
  unfolding run_with_cancel
  missing_node_cause world id e = elim (Result-cases (validate_workflow json w)) [
    | inl (done, passed) ↦
        let v = (validate_iff json w).0 passed in
        (
          v,
          subst (Answer w) (rw (passed, run_with_cancel) at e)
              (run_loop-Answer (max x.max_steps 1) (initial json x w) world v (initial-Inv v)),
        )
    | inr (message, refused) ↦ absurd (cc (rw (refused, run_with_cancel) at e))
  ]
