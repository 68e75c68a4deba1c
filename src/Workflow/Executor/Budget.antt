-- ===== src/Workflow/Executor/Budget.antt =====
-- The step budget of the executor bounds a run and never changes what it computes.
use comptrol.Base.{
  ℕ, zero, suc, ◌+◌, ◌≡◌, ◌≢◌, refl, sym, ap, ◌∙◌, inl, inr, Result, err, Bool-cases, if◌then◌else◌,
}
use native.Mathlib.Nat.{zero-add, suc-add}
use comptrol.Json.{Json}
use comptrol.Workflow.{Workflow}
use comptrol.Workflow.Executor.{
  WorkflowExecutor, ExecState, ExecutionError, step_budget_exceeded, cancelled, Next, continue,
  finish, step, run_loop, resume,
}

module _ {V W : Type 0} (json : Json V) (x : WorkflowExecutor V W) (w : Workflow V) where
  resume_eq :
      (f g : ExecState V → W → Result ExecutionError V × W) (turn : Next V × W)
      → ((s : ExecState V) (world : W)
          → (g s world).0 ≢ err step_budget_exceeded
          → f s world ≡ g s world)
      → (resume json x w g turn).0 ≢ err step_budget_exceeded
      → resume json x w f turn ≡ resume json x w g turn
  unfolding resume
  resume_eq f g (continue s, world) h e = h s world e
  resume_eq f g (finish answer, world) h e = refl

  turn_eq :
      (left : ℕ) (s : ExecState V) (world : W)
      → run_loop json x w (suc left) s world ≡ (
          if (x.is_cancelled world).0
          then (err cancelled, (x.is_cancelled world).1)
          else resume json x w (run_loop json x w left) (step json x w s (x.is_cancelled world).1))
  unfolding run_loop
  turn_eq left s world = refl

  no_turn_eq :
      (s : ExecState V) (world : W)
      → run_loop json x w 0 s world ≡ (
        if (x.is_cancelled world).0 then err cancelled else err step_budget_exceeded,
        (x.is_cancelled world).1,
      )
  unfolding run_loop
  no_turn_eq s world = refl

  one_more :
      (left : ℕ) (s : ExecState V) (world : W)
      → (run_loop json x w left s world).0 ≢ err step_budget_exceeded
      → run_loop json x w (suc left) s world ≡ run_loop json x w left s world
  one_more zero s world h = elim (Bool-cases (x.is_cancelled world).0) [
    | inl stop ↦ rw (turn_eq 0 s world, no_turn_eq s world, stop)
    | inr proceed ↦ absurd (h (rw (no_turn_eq s world, proceed)))
  ]
  one_more (suc left) s world h = elim (Bool-cases (x.is_cancelled world).0) [
    | inl stop ↦ rw (turn_eq (suc left) s world, turn_eq left s world, stop)
    | inr proceed ↦
        rw (turn_eq (suc left) s world, turn_eq left s world, proceed)
          (resume_eq (run_loop json x w (suc left)) (run_loop json x w left)
            (step json x w s (x.is_cancelled world).1) (one_more left)
            (rw (turn_eq left s world, proceed) at h))
  ]

  -- A run that ends within its budget gives the same answer and the same world with any larger one.
  pub larger_budget :
      (more left : ℕ) (s : ExecState V) (world : W)
      → (run_loop json x w left s world).0 ≢ err step_budget_exceeded
      → run_loop json x w (more + left) s world ≡ run_loop json x w left s world
  larger_budget zero left s world h = rw zero-add
  larger_budget (suc more) left s world h =
      let ih = larger_budget more left s world h in
      rw suc-add (
        one_more (more + left) s world
          (λ e. h (sym (ap (λ (r : Result ExecutionError V × W). r.0) ih) ∙ e))
        ∙ ih)
