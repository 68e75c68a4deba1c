-- ===== src/Workflow/Speculative/Undo.antt =====
-- The reconcile plan of a speculative batch that stopped: what is to be undone, and in which order.
use mathlib.Core.List.{reverse, map}
use comptrol.Base.{
  ℕ, zero, suc, ◌≡◌, refl, sym, ap, ◌∙◌, inl, inr, false, List, [], ◌∷◌, ◌++◌, length, All,
  Bool-cases, arith,
}
use comptrol.Json.{Json}
use comptrol.Workflow.Speculative.{
  SpeculativeStep, SpeculativeStepOutcome, Callbacks, run_speculative, plan_for,
}
use comptrol.Workflow.Speculative.Report.{speculative_report}
use comptrol.Workflow.Speculative.Report.Shape.{
  Numbered, StoppedAt, WasNotRun, was_executed, executed_count,
}
use comptrol.Workflow.Speculative.Report.Plan.{down, Executed, positions-reverse}

module _ {V : Type 0} where
  executed_count-zero :
      (os : List (SpeculativeStepOutcome V)) → All WasNotRun os → executed_count os ≡ 0
  executed_count-zero [] h = refl
  executed_count-zero (o ∷ os) h = rw h.0 (executed_count-zero os h.1)

  -- The executed steps, and behind them the others.
  record Split (i : ℕ) (os : List (SpeculativeStepOutcome V)) : Type 0 where
    front : List (SpeculativeStepOutcome V)
    back : List (SpeculativeStepOutcome V)
    whole : os ≡ front ++ back
    ran : Executed i front
    idle : All WasNotRun back
    counted : executed_count os ≡ length front

  executed-Split :
      (i k : ℕ) (ps : List (SpeculativeStep V)) (os : List (SpeculativeStepOutcome V))
      → Numbered i ps os
      → StoppedAt k os
      → Split i os
  executed-Split i k ps [] h s = elim s [ ]
  executed-Split i k [] (o ∷ os) h s = elim h [ ]
  executed-Split i zero (p ∷ ps) (o ∷ os) h s = elim (Bool-cases (was_executed o.state)) [
    | inl ran ↦ record {
      front = o ∷ [];
      back = os;
      whole = refl;
      ran = (h.0, ground arith, tt);
      idle = s.1;
      counted = rw (ran, executed_count-zero os s.1);
    }
    | inr idle ↦ record {
      front = [];
      back = o ∷ os;
      whole = refl;
      ran = tt;
      idle = (ground arith, s.1);
      counted = rw (idle, executed_count-zero os s.1);
    }
  ]
  executed-Split i (suc k) (p ∷ ps) (o ∷ os) h s =
      let rest = executed-Split (suc i) k ps os h.2 s.1 in
      record {
        front = o ∷ rest.front;
        back = rest.back;
        whole = ap (λ xs. o ∷ xs) rest.whole;
        ran = (h.0, ground (arith, s.0), rest.ran);
        idle = rest.idle;
        counted = rw s.0 (ap suc rest.counted);
      }

-- The reconcile plan of a batch that stopped has one entry for each executed step and no other,
-- newest first: the positions of its entries count down to 0.
pub plan_newest_first :
    {V W : Type 0} (json : Json V) (c : Callbacks V W) (steps : List (SpeculativeStep V))
    (deadline_ms : ℕ) (world : W)
    → (run_speculative json c steps deadline_ms world).0.completed ≡ false
    → let r = (run_speculative json c steps deadline_ms world).0 in
      map (λ e. e.index) r.reconcile_plan ≡ down 0 (executed_count r.steps)
plan_newest_first json c steps deadline_ms world stopped =
    let r = (run_speculative json c steps deadline_ms world).0 in
    let (numbered, told) = speculative_report json c steps deadline_ms world in
    elim told [
      | inl done ↦ absurd (cc (done.0))
      | inr halt ↦
          let (k, _, at) = halt.2 in
          let split = executed-Split 0 k steps r.steps numbered at in
          ap (map (λ e. e.index)) halt.1
          ∙ ap (λ os. map (λ e. e.index) (plan_for json steps (reverse os))) split.whole
          ∙ positions-reverse json steps split.front split.back split.ran split.idle
          ∙ ap (down 0) (sym split.counted)
    ]
