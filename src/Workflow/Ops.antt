-- ===== src/Workflow/Ops.antt =====
-- The flat op form of crates/comptrol-workflow/src/lib.rs: `execute_ops` and `execute_ops_traced`.
-- The wait callback threads the caller's world.
pub mod Agreement
use comptrol.Base.{
  ℕ, String, Bool, true, false, not, Option, none, some, List, [], ◌∷◌, ltb, if◌then◌else◌, Map,
  get, insert, Result, ok, err,
}
use comptrol.Json.{Json}

pub data WorkflowOp (V : Type 0) : Type 0 where
  sense : String → V → WorkflowOp V
  assert : String → V → WorkflowOp V
  set : String → V → WorkflowOp V
  wait : ℕ → WorkflowOp V
  return : V → WorkflowOp V

pub data OpError : Type 0 where
  assertion_failed : String → OpError
  wait_too_long : ℕ → OpError
  cancelled : OpError

abbrev pub max_op_wait_ms : ℕ
max_op_wait_ms = 60000

module _ {V W : Type 0} (json : Json V) (waiter : W → ℕ → Result OpError (Unit {0}) × W) where
  -- `memory.get(key) == Some(equals)`
  pub holds : Option V → V → Bool
  holds none equals = false
  holds (some value) equals = json.same value equals

  go_on : (W → Result OpError V × W) → Result OpError (Unit {0}) × W → Result OpError V × W
  go_on rest (ok done, world) = rest world
  go_on rest (err e, world) = (err e, world)

  -- The loop of `execute_ops`, from the op at hand.
  pub ops_from : List (WorkflowOp V) → Map V → W → Result OpError V × W
  unfolding holds go_on
  ops_from [] memory world = (ok json.null, world)
  ops_from (sense key value ∷ ops) memory world = ops_from ops (insert memory key value) world
  ops_from (set key value ∷ ops) memory world = ops_from ops (insert memory key value) world
  ops_from (assert key equals ∷ ops) memory world =
      let rest = ops_from ops memory world in
      if not (holds (get memory key) equals) then (err (assertion_failed key), world) else rest
  ops_from (wait requested ∷ ops) memory world =
      let rest = go_on (ops_from ops memory) (waiter world requested) in
      if ltb max_op_wait_ms requested then (err (wait_too_long requested), world) else rest
  ops_from (return value ∷ ops) memory world = (ok value, world)

  pub execute_ops : List (WorkflowOp V) → W → Result OpError V × W
  unfolding ops_from
  execute_ops ops = ops_from ops []

  -- What `execute_ops_traced` returns: the outcome and the memory, and the world beside them.
  pub record Traced : Type 0 where
    pub outcome : Result OpError V
    pub memory : Map V
    pub world : W

  traced_on : (W → Traced) → Map V → Result OpError (Unit {0}) × W → Traced
  traced_on rest memory (ok done, world) = rest world
  traced_on rest memory (err e, world) = record { outcome = err e; memory = memory; world = world }

  pub traced_from : List (WorkflowOp V) → Map V → W → Traced
  unfolding holds traced_on
  traced_from [] memory world = record { outcome = ok json.null; memory = memory; world = world }
  traced_from (sense key value ∷ ops) memory world = traced_from ops (insert memory key value) world
  traced_from (set key value ∷ ops) memory world = traced_from ops (insert memory key value) world
  traced_from (assert key equals ∷ ops) memory world =
      let rest = traced_from ops memory world in
      if not (holds (get memory key) equals)
      then record { outcome = err (assertion_failed key); memory = memory; world = world }
      else rest
  traced_from (wait requested ∷ ops) memory world =
      let rest = traced_on (traced_from ops memory) memory (waiter world requested) in
      if ltb max_op_wait_ms requested
      then record { outcome = err (wait_too_long requested); memory = memory; world = world }
      else rest
  traced_from (return value ∷ ops) memory world = record {
    outcome = ok value;
    memory = memory;
    world = world;
  }

  pub execute_ops_traced : List (WorkflowOp V) → W → Traced
  unfolding traced_from
  execute_ops_traced ops = traced_from ops []
