-- ===== src/Workflow/Executor/Walk/Reads.antt =====
-- `ParallelRead`, and a whole turn, keep the invariant of the executor's state.
use comptrol.Base.{
  ◌≡◌, refl, inl, inr, String, true, Option, none, some, List, [], ◌∷◌, eq_string, get,
  contains_key, contains_key-get, get-Has, Has, Result, ok, err,
}
use comptrol.Json.{Json}
use comptrol.Workflow.{
  Workflow, WorkflowNode, observe, assert, act, wait, verify, checkpoint, branch, loop,
  parallel_read, return, node_edges, edge_of,
}
use comptrol.Workflow.Validate.Wellformed.{IsValid, IsNodeValid}
use comptrol.Workflow.Executor.{
  WorkflowExecutor, ExecState, ExecutionError, visit, step, read_nodes, after_read, after_reads,
  read_one, read_on, visit_found,
}
use comptrol.Workflow.Executor.Walk.Invariant.{CountsWithin, Inv, Answer, Turn}
use comptrol.Workflow.Executor.Walk.Turns.{
  go_to-Turn, action-Turn, check-Turn, wait-Turn, branch-Turn, loop-Turn,
}

module _ {V W : Type 0} (json : Json V) (x : WorkflowExecutor V W) (w : Workflow V) where
  pub after_read-Answer :
      (id : String) (r : Result String V × W) → Answer w (after_read json x w id r).0
  unfolding after_read
  after_read-Answer id (ok value, world) = tt
  after_read-Answer id (err message, world) = tt

  pub read_one-Answer :
      (at id : String) (ids : List String) (next : Option String) (node : Option (WorkflowNode V))
      (world : W)
      → get w.nodes at ≡ some (parallel_read ids next)
      → Has id ids
      → get w.nodes id ≡ node
      → Answer w (read_one json x w id node world).0
  unfolding read_one
  read_one-Answer at id ids next none world here m e = inr (at, ids, next, here, m, e)
  read_one-Answer at id ids next (some (observe intent on)) world here m e =
      after_read-Answer id (x.action world intent json.null)
  read_one-Answer at id ids next (some _) world here m e = tt

  pub read_on-Answer :
      (rest : V → W → Result ExecutionError V × W) (r : Result ExecutionError V × W)
      → ((value : V) (world : W) → Answer w (rest value world).0)
      → Answer w r.0
      → Answer w (read_on json x w rest r).0
  unfolding read_on
  read_on-Answer rest (ok value, world) ih h = ih value world
  read_on-Answer rest (err e, world) ih h = h

  pub reads-Answer :
      (at : String) (all : List String) (next : Option String) (ids : List String) (last : V)
      (world : W)
      → get w.nodes at ≡ some (parallel_read all next)
      → ((id : String) → Has id ids → Has id all)
      → Answer w (read_nodes json x w ids last world).0
  unfolding read_nodes
  reads-Answer at all next [] last world here within = tt
  reads-Answer at all next (id ∷ ids) last world here within =
      read_on-Answer (read_nodes json x w ids) (read_one json x w id (get w.nodes id) world)
        (λ value world'. reads-Answer at all next ids value world' here (λ j m. within j (inr m)))
        (read_one-Answer at id all next (get w.nodes id) world here (within id (inl refl)) refl)

  pub reads-Turn :
      (s : ExecState V) (ids : List String) (next : Option String) (r : Result ExecutionError V × W)
      → get w.nodes s.current ≡ some (parallel_read ids next)
      → ((e : String) → Has e (edge_of next) → contains_key w.nodes e ≡ true)
      → CountsWithin w s.loop_counts
      → Answer w r.0
      → Turn w (after_reads json x w s next r).0
  unfolding after_reads
  reads-Turn s ids next (ok value, world) here edges c h =
      go_to-Turn json x w (parallel_read ids next) (record s { last = value }) next here refl edges
        c
  reads-Turn s ids next (err e, world) here edges c h = h

  pub visit-Turn :
      (node : WorkflowNode V) (s : ExecState V) (world : W)
      → get w.nodes s.current ≡ some node
      → IsNodeValid w.nodes node
      → CountsWithin w s.loop_counts
      → Turn w (visit json x w node s world).0
  unfolding visit node_edges
  visit-Turn (observe intent next) s world here v c =
      action-Turn json x w (observe intent next) s next (x.action world intent json.null) here refl
        v.edges_closed c
  visit-Turn (act intent params next) s world here v c =
      action-Turn json x w (act intent params next) s next (x.action world intent params) here refl
        v.edges_closed c
  visit-Turn (assert condition next) s world here v c =
      check-Turn json x w (assert condition next) s next (x.verifier world condition s.last) here
        refl v.edges_closed c
  visit-Turn (verify criterion next) s world here v c =
      check-Turn json x w (verify criterion next) s next (x.verifier world criterion s.last) here
        refl v.edges_closed c
  visit-Turn (wait event timeout_ms next) s world here v c =
      wait-Turn json x w (wait event timeout_ms next) s next (x.waiter world event timeout_ms) here
        refl v.edges_closed c
  visit-Turn (checkpoint name next) s world here v c =
      go_to-Turn json x w (checkpoint name next) s next here refl v.edges_closed c
  visit-Turn (branch condition a b) s world here v c =
      branch-Turn json x w s a b (x.verifier world condition s.last) (v.edges_closed a (inl refl))
        (v.edges_closed b (inr (inl refl))) c
  visit-Turn (loop body next most) s world here v c =
      loop-Turn json x w s body next most here (v.edges_closed body (inl refl))
        (λ e m. v.edges_closed e (inr m)) c
  visit-Turn (parallel_read ids next) s world here v c =
      reads-Turn s ids next (read_nodes json x w ids s.last world) here v.edges_closed c
        (reads-Answer s.current ids next ids s.last world here (λ id m. m))
  visit-Turn (return value) s world here v c = tt

  pub found-Turn :
      (node : Option (WorkflowNode V)) (s : ExecState V) (world : W)
      → IsValid json w
      → get w.nodes s.current ≡ node
      → Inv w s
      → Turn w (visit_found json x w node s world).0
  unfolding visit_found
  found-Turn none s world v e h =
      let (node, there) = contains_key-get w.nodes s.current h.in_graph in absurd (cc)
  found-Turn (some node) s world v e h =
      visit-Turn node s world e (v.nodes_valid node (get-Has w.nodes s.current node e)) h.counted

  pub step-Turn :
      (s : ExecState V) (world : W) → IsValid json w → Inv w s → Turn w (step json x w s world).0
  unfolding step
  step-Turn s world v h = found-Turn (get w.nodes s.current) s world v refl h
