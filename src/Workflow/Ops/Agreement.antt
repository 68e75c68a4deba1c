-- ===== src/Workflow/Ops/Agreement.antt =====
-- The two interpreters of the flat op form agree, and what a run of ops guarantees.
use comptrol.Base.{
  ℕ, ◌≤◌, ◌≡◌, refl, inl, inr, List, [], ◌∷◌, ltb, eq_string, Map, get, insert, Result, ok, err,
  arith, Bool-cases,
}
use comptrol.Json.{Json}
use comptrol.Workflow.Ops.{
  WorkflowOp, sense, assert, set, wait, return, OpError, max_op_wait_ms, holds, go_on, ops_from,
  execute_ops, Traced, traced_on, traced_from, execute_ops_traced,
}

module _ {V W : Type 0} (json : Json V) (waiter : W → ℕ → Result OpError (Unit {0}) × W) where
  go_on-traced :
      (f : W → Result OpError V × W) (g : W → Traced json waiter) (memory : Map V)
      (r : Result OpError (Unit {0}) × W)
      → ((world : W) → f world ≡ ((g world).outcome, (g world).world))
      → go_on json waiter f r
        ≡ ((traced_on json waiter g memory r).outcome, (traced_on json waiter g memory r).world)
  unfolding go_on traced_on
  go_on-traced f g memory (ok done, world) h = h world
  go_on-traced f g memory (err e, world) h = refl

  from_agree :
      (ops : List (WorkflowOp V)) (memory : Map V) (world : W)
      → ops_from json waiter ops memory world ≡ (
        (traced_from json waiter ops memory world).outcome,
        (traced_from json waiter ops memory world).world,
      )
  unfolding ops_from traced_from
  from_agree [] memory world = refl
  from_agree (sense key value ∷ ops) memory world = from_agree ops (insert memory key value) world
  from_agree (set key value ∷ ops) memory world = from_agree ops (insert memory key value) world
  from_agree (assert key equals ∷ ops) memory world =
      elim (Bool-cases (holds json waiter (get memory key) equals)) [
        | inl met ↦ rw met (from_agree ops memory world)
        | inr unmet ↦ rw unmet
      ]
  from_agree (wait requested ∷ ops) memory world =
      elim (Bool-cases (ltb max_op_wait_ms requested)) [
        | inl over ↦ rw over
        | inr within ↦ rw within (
            go_on-traced (ops_from json waiter ops memory) (traced_from json waiter ops memory)
              memory (waiter world requested) (from_agree ops memory))
      ]
  from_agree (return value ∷ ops) memory world = refl

  -- The traced interpreter gives the outcome of the plain one, and leaves the host in the same
  -- state, on every list of ops.
  pub execute_ops_agree :
      (ops : List (WorkflowOp V)) (world : W)
      → let t = execute_ops_traced json waiter ops world in
        execute_ops json waiter ops world ≡ (t.outcome, t.world)
  unfolding execute_ops execute_ops_traced
  execute_ops_agree ops world = from_agree ops [] world

  module _ (P : W → Type 0)
      (kept : (world : W) (requested : ℕ)
        → requested ≤ max_op_wait_ms
        → P world
        → P (waiter world requested).1) where
    go_on-kept :
        (rest : W → Result OpError V × W) (r : Result OpError (Unit {0}) × W)
        → ((world : W) → P world → P (rest world).1)
        → P r.1
        → P (go_on json waiter rest r).1
    unfolding go_on
    go_on-kept rest (ok done, world) ih h = ih world h
    go_on-kept rest (err e, world) ih h = h

    from_kept :
        (ops : List (WorkflowOp V)) (memory : Map V) (world : W)
        → P world
        → P (ops_from json waiter ops memory world).1
    unfolding ops_from
    from_kept [] memory world h = h
    from_kept (sense key value ∷ ops) memory world h =
        from_kept ops (insert memory key value) world h
    from_kept (set key value ∷ ops) memory world h = from_kept ops (insert memory key value) world h
    from_kept (assert key equals ∷ ops) memory world h =
        elim (Bool-cases (holds json waiter (get memory key) equals)) [
          | inl met ↦ rw met (from_kept ops memory world h)
          | inr unmet ↦ rw unmet h
        ]
    from_kept (wait requested ∷ ops) memory world h =
        elim (Bool-cases (ltb max_op_wait_ms requested)) [
          | inl over ↦ rw over h
          | inr within ↦ rw within (
              go_on-kept (ops_from json waiter ops memory) (waiter world requested)
                (from_kept ops memory) (kept world requested (ground arith) h))
        ]
    from_kept (return value ∷ ops) memory world h = h

    -- The waiter is never asked for more than the ceiling of 60,000 ms: whatever it keeps when asked
    -- for no more than that, a whole run of ops keeps.
    pub waits_bounded :
        (ops : List (WorkflowOp V)) (world : W) → P world → P (execute_ops json waiter ops world).1
    unfolding execute_ops
    waits_bounded ops world h = from_kept ops [] world h
