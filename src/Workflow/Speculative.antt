-- ===== src/Workflow/Speculative.antt =====
-- Speculative batches of crates/comptrol-workflow/src/lib.rs: `run_speculative` and
-- `fail_speculative`. The callbacks and the clock thread the host's world. The states that the code
-- writes as texts ("succeeded", "failed", "postcondition_failed", "not_run") are constructors, and
-- so are the actions of a reconcile entry.
pub mod Report
pub mod Undo
use comptrol.Base.{
  ℕ, zero, suc, ◌+◌, String, Bool, true, false, not, ◌&&◌, ◌||◌, Option, none, some, List, [], ◌∷◌,
  ◌++◌, leb, if◌then◌else◌, length, drop, get_elem?, Result, ok, err,
}
use mathlib.Core.List.{reverse}
use comptrol.Json.{Json}

pub record SpeculativeStep (V : Type 0) : Type 0 where
  pub intent : String
  pub params : V
  pub postcondition : Option V
  pub rollback_hint : Option V

pub data StepState : Type 0 where
  succeeded failed postcondition_failed not_run : StepState

pub record SpeculativeStepOutcome (V : Type 0) : Type 0 where
  pub index : ℕ
  pub intent : String
  pub state : StepState
  pub result : V
  pub postcondition_passed : Option Bool

pub data ReconcileAction (V : Type 0) : Type 0 where
  rollback : V → ReconcileAction V
  manual_review : ReconcileAction V

pub record ReconcileEntry (V : Type 0) : Type 0 where
  pub index : ℕ
  pub intent : String
  pub action : ReconcileAction V

-- `failed_at` is `none` exactly in the state "completed".
pub record SpeculativeOutcome (V : Type 0) : Type 0 where
  pub completed : Bool
  pub steps : List (SpeculativeStepOutcome V)
  pub failed_at : Option ℕ
  pub reconcile_plan : List (ReconcileEntry V)

pub record Callbacks (V W : Type 0) : Type 0 where
  pub action : W → ℕ → String → V → Result String V × W
  pub verify : W → V → V → Bool × W
  pub cancelled : W → Bool × W
  pub now : W → ℕ × W

module _ {V : Type 0} (json : Json V) where
  -- `planned.iter().enumerate().skip(steps.len())`, the list being what the skip leaves.
  pub not_run_from : ℕ → List (SpeculativeStep V) → List (SpeculativeStepOutcome V)
  not_run_from index [] = []
  not_run_from index (step ∷ rest) =
      record {
        index = index;
        intent = step.intent;
        state = not_run;
        result = json.null;
        postcondition_passed = none;
      }
      ∷ not_run_from (suc index) rest

  hint_of : Option (SpeculativeStep V) → Option V
  hint_of none = none
  hint_of (some step) = elim step.rollback_hint [
    | none ↦ none
    | some hint ↦ if json.is_null hint then none else some hint
  ]

  rollback_with : Option V → ReconcileAction V
  rollback_with none = manual_review
  rollback_with (some hint) = rollback hint

  -- The entry for one outcome; `none` where the loop goes on to the next.
  pub entry_for : List (SpeculativeStep V) → SpeculativeStepOutcome V → Option (ReconcileEntry V)
  unfolding hint_of rollback_with
  entry_for planned o = elim o.state [
    | not_run ↦ none
    | succeeded ↦ some (record {
      index = o.index;
      intent = o.intent;
      action = rollback_with (hint_of (get_elem? planned o.index));
    })
    | _ ↦ some (record { index = o.index; intent = o.intent; action = manual_review })
  ]

  pub plan_for :
      List (SpeculativeStep V) → List (SpeculativeStepOutcome V) → List (ReconcileEntry V)
  unfolding entry_for
  plan_for planned [] = []
  plan_for planned (o ∷ os) = elim (entry_for planned o) [
    | none ↦ plan_for planned os
    | some e ↦ e ∷ plan_for planned os
  ]

  pub fail_speculative :
      List (SpeculativeStepOutcome V) → List (SpeculativeStep V) → ℕ → SpeculativeOutcome V
  unfolding not_run_from plan_for
  fail_speculative done planned failed_at =
      let steps = done ++ not_run_from (length done) (drop (length done) planned) in
      record {
        completed = false;
        steps = steps;
        failed_at = some failed_at;
        reconcile_plan = plan_for planned (reverse steps);
      }

  abbrev outcome_of : ℕ → SpeculativeStep V → StepState → V → Option Bool → SpeculativeStepOutcome V
  outcome_of index step state result passed = record {
    index = index;
    intent = step.intent;
    state = state;
    result = result;
    postcondition_passed = passed;
  }

  module _ {W : Type 0} (c : Callbacks V W) where
    -- `step.postcondition.as_ref().map(|criterion| verify(criterion, &result))`
    pub check_postcondition : Option V → V → W → Option Bool × W
    check_postcondition none result world = (none, world)
    check_postcondition (some criterion) result world =
        let (passed, world') = c.verify world criterion result in (some passed, world')

    -- `cancelled() || Instant::now() >= deadline`: the clock is read only if not cancelled.
    pub must_stop : ℕ → W → Bool × W
    must_stop deadline world =
        let (stop, world') = c.cancelled world in
        let (now, world'') = c.now world' in
        if stop then (true, world') else (leb deadline now, world'')

    -- What one step comes to: its outcome, and whether the batch goes on.
    pub record Attempt : Type 0 where
      pub outcome : SpeculativeStepOutcome V
      pub goes_on : Bool
      pub world : W

    judge : ℕ → SpeculativeStep V → V → Option Bool × W → Attempt
    judge index step result (some false, world) = record {
      outcome = outcome_of index step postcondition_failed result (some false);
      goes_on = false;
      world = world;
    }
    judge index step result (passed, world) = record {
      outcome = outcome_of index step succeeded result passed;
      goes_on = true;
      world = world;
    }

    act_on : ℕ → SpeculativeStep V → Result String V × W → Attempt
    unfolding check_postcondition judge
    act_on index step (ok result, world) =
        judge index step result (check_postcondition step.postcondition result world)
    act_on index step (err message, world) = record {
      outcome = outcome_of index step failed (json.of_string message) none;
      goes_on = false;
      world = world;
    }

    pub attempt : ℕ → SpeculativeStep V → W → Attempt
    unfolding act_on
    attempt index step world = act_on index step (c.action world index step.intent step.params)

    -- The loop of `run_speculative`, from the step at hand; the outcomes so far are in order.
    pub steps_from :
        List (SpeculativeStep V)
        → ℕ
        → ℕ
        → List (SpeculativeStep V)
        → List (SpeculativeStepOutcome V)
        → W
        → SpeculativeOutcome V × W
    unfolding must_stop attempt fail_speculative
    steps_from planned deadline index [] done world =
        (record { completed = true; steps = done; failed_at = none; reconcile_plan = [] }, world)
    steps_from planned deadline index (step ∷ rest) done world =
        let (stop, world') = must_stop deadline world in
        let a = attempt index step world' in
        let next = steps_from planned deadline (suc index) rest (done ++ a.outcome ∷ []) a.world in
        if stop
        then (fail_speculative done planned index, world')
        else if a.goes_on
        then next
        else (fail_speculative (done ++ a.outcome ∷ []) planned index, a.world)

    unfoldable pub run_speculative : List (SpeculativeStep V) → ℕ → W → SpeculativeOutcome V × W
    unfolding steps_from
    run_speculative steps deadline_ms world =
        let (started, world') = c.now world in
        steps_from steps (started + deadline_ms) 0 steps [] world'
