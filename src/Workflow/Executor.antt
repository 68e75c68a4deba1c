-- ===== src/Workflow/Executor.antt =====
-- `WorkflowExecutor` of crates/comptrol-workflow/src/lib.rs. The callbacks of the host are functions
-- that thread the host's world; a step of the loop is a function of its own.
pub mod Walk
pub mod Budget
pub mod Frame
use comptrol.Base.{
  ℕ, zero, suc, ◌+◌, String, Bool, true, false, Option, none, some, List, [], ◌∷◌, leb,
  if◌then◌else◌, Map, get, insert, max, Result, ok, err,
}
use comptrol.Json.{Json}
use comptrol.Workflow.{
  Workflow, WorkflowNode, observe, assert, act, wait, verify, checkpoint, branch, loop,
  parallel_read, return,
}
use comptrol.Workflow.Validate.{validate_workflow}

pub data ExecutionError : Type 0 where
  missing_node : String → ExecutionError
  step_budget_exceeded : ExecutionError
  action_failed : String → String → ExecutionError
  verification_failed : String → ExecutionError
  wait_failed : String → String → ExecutionError
  cancelled : ExecutionError

-- The executor's callbacks, its step budget, and the cancellation check of the call.
pub record WorkflowExecutor (V W : Type 0) : Type 0 where
  pub action : W → String → V → Result String V × W
  pub verifier : W → V → V → Bool × W
  pub waiter : W → String → ℕ → Result String (Unit {0}) × W
  pub is_cancelled : W → Bool × W
  pub max_steps : ℕ

pub record ExecState (V : Type 0) : Type 0 where
  pub current : String
  pub last : V
  pub loop_counts : Map ℕ

abbrev pub count_of : Option ℕ → ℕ
count_of none = 0
count_of (some n) = n

pub data Next (V : Type 0) : Type 0 where
  continue : ExecState V → Next V
  finish : Result ExecutionError V → Next V

module _ {V : Type 0} where
  -- `current = next.clone().ok_or_else(|| MissingNode(current))?`
  abbrev pub go_to : ExecState V → Option String → Next V
  go_to s none = finish (err (missing_node s.current))
  go_to s (some next) = continue (record s { current = next })

  -- A loop node: the body while the count is below the bound, then the exit.
  pub enter_loop : ExecState V → String → Option String → ℕ → Next V
  enter_loop s body next most =
      let count = count_of (get s.loop_counts s.current) in
      if leb most count
      then go_to (record s { loop_counts = insert s.loop_counts s.current count }) next
      else continue
          (record s { current = body; loop_counts = insert s.loop_counts s.current (count + 1) })

module _ {V W : Type 0} (json : Json V) (x : WorkflowExecutor V W) (w : Workflow V) where
  -- After a callback that gives the new last value.
  pub after_action : ExecState V → Option String → Result String V × W → Next V × W
  after_action s next (ok value, world) = (go_to (record s { last = value }) next, world)
  after_action s next (err message, world) = (finish (err (action_failed s.current message)), world)

  pub after_check : ExecState V → Option String → Bool × W → Next V × W
  after_check s next (true, world) = (go_to s next, world)
  after_check s next (false, world) = (finish (err (verification_failed s.current)), world)

  pub after_wait : ExecState V → Option String → Result String (Unit {0}) × W → Next V × W
  after_wait s next (ok done, world) = (go_to s next, world)
  after_wait s next (err message, world) = (finish (err (wait_failed s.current message)), world)

  pub after_branch : ExecState V → String → String → Bool × W → Next V × W
  after_branch s if_true if_false (true, world) = (continue (record s { current = if_true }), world)
  after_branch s if_true if_false (false, world) =
      (continue (record s { current = if_false }), world)

  pub after_read : String → Result String V × W → Result ExecutionError V × W
  after_read id (ok value, world) = (ok value, world)
  after_read id (err message, world) = (err (action_failed id message), world)

  -- One node of a `ParallelRead`.
  pub read_one : String → Option (WorkflowNode V) → W → Result ExecutionError V × W
  unfolding after_read
  read_one id none world = (err (missing_node id), world)
  read_one id (some (observe intent next)) world = after_read id (x.action world intent json.null)
  read_one id (some _) world =
      (err (action_failed id "parallel_read accepts Observe nodes only"), world)

  pub read_on :
      (V → W → Result ExecutionError V × W)
      → Result ExecutionError V × W
      → Result ExecutionError V × W
  read_on rest (ok value, world) = rest value world
  read_on rest (err e, world) = (err e, world)

  -- The loop over the nodes of a `ParallelRead`: the last value read, or the error.
  pub read_nodes : List String → V → W → Result ExecutionError V × W
  unfolding read_one read_on
  read_nodes [] last world = (ok last, world)
  read_nodes (id ∷ ids) last world = read_on (read_nodes ids) (read_one id (get w.nodes id) world)

  pub after_reads : ExecState V → Option String → Result ExecutionError V × W → Next V × W
  after_reads s next (ok value, world) = (go_to (record s { last = value }) next, world)
  after_reads s next (err e, world) = (finish (err e), world)

  pub visit : WorkflowNode V → ExecState V → W → Next V × W
  unfolding after_action after_check after_wait after_branch read_nodes after_reads enter_loop
  visit (observe intent next) s world = after_action s next (x.action world intent json.null)
  visit (act intent params next) s world = after_action s next (x.action world intent params)
  visit (assert condition next) s world = after_check s next (x.verifier world condition s.last)
  visit (verify criterion next) s world = after_check s next (x.verifier world criterion s.last)
  visit (wait event timeout_ms next) s world = after_wait s next (x.waiter world event timeout_ms)
  visit (checkpoint name next) s world = (go_to s next, world)
  visit (branch condition if_true if_false) s world =
      after_branch s if_true if_false (x.verifier world condition s.last)
  visit (loop body next most) s world = (enter_loop s body next most, world)
  visit (parallel_read nodes next) s world = after_reads s next (read_nodes nodes s.last world)
  visit (return value) s world = (finish (ok (if json.is_null value then s.last else value)), world)

  pub visit_found : Option (WorkflowNode V) → ExecState V → W → Next V × W
  unfolding visit
  visit_found none s world = (finish (err (missing_node s.current)), world)
  visit_found (some node) s world = visit node s world

  -- One turn of the loop behind the cancellation check and the step budget.
  unfoldable pub step : ExecState V → W → Next V × W
  unfolding visit_found
  step s world = visit_found (get w.nodes s.current) s world

  pub resume :
      (ExecState V → W → Result ExecutionError V × W) → Next V × W → Result ExecutionError V × W
  resume rest (continue s, world) = rest s world
  resume rest (finish answer, world) = (answer, world)

  -- The loop, with the steps that the budget still allows.
  unfoldable pub run_loop : ℕ → ExecState V → W → Result ExecutionError V × W
  unfolding step resume
  run_loop zero s world =
      let (stop, world') = x.is_cancelled world in
      (if stop then err cancelled else err step_budget_exceeded, world')
  run_loop (suc left) s world =
      let (stop, world') = x.is_cancelled world in
      let rest = resume (run_loop left) (step s world') in
      if stop then (err cancelled, world') else rest

  abbrev pub initial : ExecState V
  initial = record { current = w.start; last = json.null; loop_counts = [] }

  unfoldable pub run_with_cancel : W → Result ExecutionError V × W
  run_with_cancel world = elim (validate_workflow json w) [
    | ok _ ↦ run_loop (max x.max_steps 1) initial world
    | err message ↦ (err (action_failed w.start message), world)
  ]

-- `run`: the check never cancels.
pub run :
    {V W : Type 0} → Json V → WorkflowExecutor V W → Workflow V → W → Result ExecutionError V × W
unfolding run_with_cancel
run json x w world =
    run_with_cancel json (record x { is_cancelled = λ world. (false, world) }) w world
