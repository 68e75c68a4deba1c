-- ===== src/Workflow/Examples/Batches.antt =====
-- A run of flat ops, and speculative batches.
use comptrol.Base.{
  ℕ, suc, ◌≡◌, refl, String, true, false, Option, none, some, List, [], ◌∷◌, map, Result, ok, err,
  ◌==◌, eq_string, if◌then◌else◌,
}
use comptrol.Workflow.Ops.{WorkflowOp, sense, assert, set, wait, return, OpError}
use comptrol.Workflow.Speculative.{SpeculativeStep, Callbacks, run_speculative}
use comptrol.Workflow.Speculative.Report.{speculative_report, Told}
use comptrol.Workflow.Speculative.Report.Shape.{Numbered}
use comptrol.Workflow.Speculative.Undo.{plan_newest_first}
use comptrol.Workflow.Examples.Values.{Value, nothing, words, amount, json}

abbrev ops : List (WorkflowOp Value)
ops =
    sense "title" (words "Inbox")
    ∷ wait 250
    ∷ set "count" (amount 2)
    ∷ assert "title" (words "Inbox")
    ∷ wait 90000
    ∷ return (words "done")
    ∷ []

-- The waiter logs what it is asked for.
abbrev waiter : List ℕ → ℕ → Result OpError (Unit {0}) × List ℕ
waiter log ms = (ok tt, ms ∷ log)

abbrev step_of : String → Option Value → SpeculativeStep Value
step_of intent hint = record {
  intent = intent;
  params = nothing;
  postcondition = none;
  rollback_hint = hint;
}

abbrev planned : List (SpeculativeStep Value)
planned =
    step_of "open" (some (words "close"))
    ∷ step_of "type" none
    ∷ step_of "break" none
    ∷ step_of "save" none
    ∷ []

-- The world is a clock that ticks when it is read; the action fails for one intent.
abbrev callbacks : Callbacks Value ℕ
callbacks = record {
  action = λ time index intent params.
      (if intent == "break" then err "no such button" else ok (words intent), time);
  verify = λ time criterion result. (true, time);
  cancelled = λ time. (false, time);
  now = λ time. (time, suc time);
}

speculative_report_example :
    Numbered 0 planned (run_speculative json callbacks planned 1000 0).0.steps
    × Told json planned (run_speculative json callbacks planned 1000 0).0
speculative_report_example = speculative_report json callbacks planned 1000 0

stops : (run_speculative json callbacks planned 1000 0).0.completed ≡ false
unfolding run_speculative
stops = refl

plan_newest_first_example :
    map (λ e. e.index) (run_speculative json callbacks planned 1000 0).0.reconcile_plan
    ≡ 2 ∷ 1 ∷ 0 ∷ []
unfolding run_speculative
plan_newest_first_example = plan_newest_first json callbacks planned 1000 0 stops
