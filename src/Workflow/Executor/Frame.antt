-- ===== src/Workflow/Executor/Frame.antt =====
-- What a run may do to the host: it acts with the intents that the workflow declares, and no other.
use comptrol.Base.{
  ℕ, zero, suc, ◌≡◌, refl, sym, subst, inl, inr, String, Bool, true, false, Option, none, some,
  List, [], ◌∷◌, get, Result, ok, err, Bool-cases, Result-cases, max,
}
use comptrol.Json.{Json}
use comptrol.Workflow.{
  Workflow, WorkflowNode, observe, assert, act, wait, verify, checkpoint, branch, loop,
  parallel_read, return,
}
use comptrol.Workflow.Validate.{validate_workflow}
use comptrol.Workflow.Executor.{
  WorkflowExecutor, ExecState, ExecutionError, Next, continue, finish, visit, step, run_loop,
  run_with_cancel, read_nodes, initial, after_action, after_check, after_wait, after_branch,
  after_read, after_reads, read_one, read_on, visit_found, resume,
}

-- The workflow has a node that performs this intent with these parameters.
pub data Declares {V : Type 0} (json : Json V) (w : Workflow V) : String → V → Type 0 where
  by_act :
      (id intent : String) (params : V) (next : Option String)
      → get w.nodes id ≡ some (act intent params next)
      → Declares json w intent params
  by_observe :
      (id intent : String) (next : Option String)
      → get w.nodes id ≡ some (observe intent next)
      → Declares json w intent json.null

module _ {V W : Type 0} (json : Json V) (x : WorkflowExecutor V W) (w : Workflow V) where
  -- A property of the host's world that the callbacks keep, the action only where the workflow
  -- declares what it is called with.
  pub record Kept (P : W → Type 0) : Type 0 where
    pub action_keeps :
        (world : W) (intent : String) (params : V)
        → Declares json w intent params
        → P world
        → P (x.action world intent params).1
    pub verifier_keeps :
        (world : W) (criterion value : V) → P world → P (x.verifier world criterion value).1
    pub waiter_keeps :
        (world : W) (event : String) (timeout_ms : ℕ)
        → P world
        → P (x.waiter world event timeout_ms).1
    pub cancel_keeps : (world : W) → P world → P (x.is_cancelled world).1

  -- The world after a callback is the world that the callback left.
  after_action-world :
      (s : ExecState V) (next : Option String) (r : Result String V × W)
      → (after_action json x w s next r).1 ≡ r.1
  unfolding after_action
  after_action-world s next (ok value, world) = refl
  after_action-world s next (err message, world) = refl

  after_check-world :
      (s : ExecState V) (next : Option String) (r : Bool × W)
      → (after_check json x w s next r).1 ≡ r.1
  unfolding after_check
  after_check-world s next (true, world) = refl
  after_check-world s next (false, world) = refl

  after_wait-world :
      (s : ExecState V) (next : Option String) (r : Result String (Unit {0}) × W)
      → (after_wait json x w s next r).1 ≡ r.1
  unfolding after_wait
  after_wait-world s next (ok done, world) = refl
  after_wait-world s next (err message, world) = refl

  after_branch-world :
      (s : ExecState V) (a b : String) (r : Bool × W) → (after_branch json x w s a b r).1 ≡ r.1
  unfolding after_branch
  after_branch-world s a b (true, world) = refl
  after_branch-world s a b (false, world) = refl

  after_read-world : (id : String) (r : Result String V × W) → (after_read json x w id r).1 ≡ r.1
  unfolding after_read
  after_read-world id (ok value, world) = refl
  after_read-world id (err message, world) = refl

  after_reads-world :
      (s : ExecState V) (next : Option String) (r : Result ExecutionError V × W)
      → (after_reads json x w s next r).1 ≡ r.1
  unfolding after_reads
  after_reads-world s next (ok value, world) = refl
  after_reads-world s next (err e, world) = refl

  module _ {P : W → Type 0} (k : Kept P) where
    read_one_keeps :
        (id : String) (node : Option (WorkflowNode V)) (world : W)
        → get w.nodes id ≡ node
        → P world
        → P (read_one json x w id node world).1
    unfolding read_one
    read_one_keeps id none world e h = h
    read_one_keeps id (some (observe intent next)) world e h =
        subst P (sym (after_read-world id (x.action world intent json.null)))
          (k.action_keeps world intent json.null (by_observe id intent next e) h)
    read_one_keeps id (some _) world e h = h

    read_on_keeps :
        (rest : V → W → Result ExecutionError V × W) (r : Result ExecutionError V × W)
        → ((value : V) (world : W) → P world → P (rest value world).1)
        → P r.1
        → P (read_on json x w rest r).1
    unfolding read_on
    read_on_keeps rest (ok value, world) ih h = ih value world h
    read_on_keeps rest (err e, world) ih h = h

    read_nodes_keeps :
        (ids : List String) (last : V) (world : W)
        → P world
        → P (read_nodes json x w ids last world).1
    unfolding read_nodes
    read_nodes_keeps [] last world h = h
    read_nodes_keeps (id ∷ ids) last world h =
        read_on_keeps (read_nodes json x w ids) (read_one json x w id (get w.nodes id) world)
          (read_nodes_keeps ids) (read_one_keeps id (get w.nodes id) world refl h)

    visit_keeps :
        (id : String) (node : WorkflowNode V) (s : ExecState V) (world : W)
        → get w.nodes id ≡ some node
        → P world
        → P (visit json x w node s world).1
    unfolding visit
    visit_keeps id (observe intent next) s world e h =
        subst P (sym (after_action-world s next (x.action world intent json.null)))
          (k.action_keeps world intent json.null (by_observe id intent next e) h)
    visit_keeps id (act intent params next) s world e h =
        subst P (sym (after_action-world s next (x.action world intent params)))
          (k.action_keeps world intent params (by_act id intent params next e) h)
    visit_keeps id (assert condition next) s world e h =
        subst P (sym (after_check-world s next (x.verifier world condition s.last)))
          (k.verifier_keeps world condition s.last h)
    visit_keeps id (verify criterion next) s world e h =
        subst P (sym (after_check-world s next (x.verifier world criterion s.last)))
          (k.verifier_keeps world criterion s.last h)
    visit_keeps id (wait event timeout_ms next) s world e h =
        subst P (sym (after_wait-world s next (x.waiter world event timeout_ms)))
          (k.waiter_keeps world event timeout_ms h)
    visit_keeps id (checkpoint name next) s world e h = h
    visit_keeps id (branch condition a b) s world e h =
        subst P (sym (after_branch-world s a b (x.verifier world condition s.last)))
          (k.verifier_keeps world condition s.last h)
    visit_keeps id (loop body next most) s world e h = h
    visit_keeps id (parallel_read ids next) s world e h =
        subst P (sym (after_reads-world s next (read_nodes json x w ids s.last world)))
          (read_nodes_keeps ids s.last world h)
    visit_keeps id (return value) s world e h = h

    visit_found_keeps :
        (node : Option (WorkflowNode V)) (s : ExecState V) (world : W)
        → get w.nodes s.current ≡ node
        → P world
        → P (visit_found json x w node s world).1
    unfolding visit_found
    visit_found_keeps none s world e h = h
    visit_found_keeps (some node) s world e h = visit_keeps s.current node s world e h

    resume_keeps :
        (rest : ExecState V → W → Result ExecutionError V × W) (turn : Next V × W)
        → ((s : ExecState V) (world : W) → P world → P (rest s world).1)
        → P turn.1
        → P (resume json x w rest turn).1
    unfolding resume
    resume_keeps rest (continue s, world) ih h = ih s world h
    resume_keeps rest (finish answer, world) ih h = h

    run_loop_keeps :
        (left : ℕ) (s : ExecState V) (world : W) → P world → P (run_loop json x w left s world).1
    unfolding run_loop step
    run_loop_keeps zero s world h = k.cancel_keeps world h
    run_loop_keeps (suc left) s world h = elim (Bool-cases (x.is_cancelled world).0) [
      | inl stop ↦ rw stop (k.cancel_keeps world h)
      | inr proceed ↦ rw proceed (
          resume_keeps (run_loop json x w left) (step json x w s (x.is_cancelled world).1)
            (run_loop_keeps left)
            (visit_found_keeps (get w.nodes s.current) s (x.is_cancelled world).1 refl
              (k.cancel_keeps world h)))
    ]

    -- A run calls the action only with intents and parameters that the workflow declares: whatever
    -- the callbacks keep under that condition, a whole run keeps, however it ends.
    pub run_keeps : (world : W) → P world → P (run_with_cancel json x w world).1
    unfolding run_with_cancel
    run_keeps world h = elim (Result-cases (validate_workflow json w)) [
      | inl (done, e) ↦
          rw (e, run_with_cancel) (run_loop_keeps (max x.max_steps 1) (initial json x w) world h)
      | inr (message, e) ↦ rw (e, run_with_cancel) h
    ]
