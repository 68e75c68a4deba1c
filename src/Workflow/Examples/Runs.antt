-- ===== src/Workflow/Examples/Runs.antt =====
-- Runs of the form workflow.
use comptrol.Base.{
  true, Option, false, eq_iff, Map, ℕ, ◌+◌, ◌≤◌, ◌≡◌, ◌≢◌, ◌↔◌, ◌⊎◌, refl, String, some, List, [],
  ◌∷◌, All, ok, err, arith,
}
use comptrol.Workflow.{contains_executable_code, code_values, has_code_key, node_edges}
use comptrol.Workflow.Validate.{validate_workflow, unsafe_bound}
use comptrol.Workflow.Validate.Wellformed.{IsValid, validate_iff}
use comptrol.Workflow.Executor.{
  ExecState, missing_node, step_budget_exceeded, initial, run_loop, run_with_cancel, step, continue,
}
use comptrol.Workflow.Executor.Budget.{larger_budget}
use comptrol.Workflow.Executor.Frame.{Declares, by_act, by_observe, Kept, run_keeps}
use comptrol.Workflow.Executor.Walk.Entries.{entries, body_entered_within}
use comptrol.Workflow.Executor.Walk.{Reach, start, turn, missing_node_cause}
use comptrol.Workflow.Executor.Walk.Invariant.{DeadEnd, ReadsMissing}
use comptrol.Workflow.Examples.Values.{Value, words, json, form, ghost, host}

accepted : validate_workflow json form ≡ ok tt
unfolding validate_workflow contains_executable_code code_values has_code_key unsafe_bound
    node_edges
accepted = refl

finishes :
    run_with_cancel json host form []
    ≡ (ok (words "press_key"), "press_key" ∷ "press_key" ∷ "read_screen" ∷ [])
unfolding run_with_cancel run_loop validate_workflow contains_executable_code code_values
    has_code_key unsafe_bound node_edges
finishes = refl

form-IsValid : IsValid json form
form-IsValid = (validate_iff json form).0 accepted

validate_iff_example : (validate_workflow json form ≡ ok tt) ↔ IsValid json form
validate_iff_example = validate_iff json form

within_budget :
    (run_loop json host form 12 (initial json host form) []).0 ≢ err step_budget_exceeded
unfolding run_loop
within_budget h = absurd (cc)

larger_budget_example :
    run_loop json host form (5 + 12) (initial json host form) []
    ≡ run_loop json host form 12 (initial json host form) []
larger_budget_example = larger_budget json host form 5 12 (initial json host form) [] within_budget

one_turn :
    (step json host form (initial json host form) []).0
    ≡ continue (record { current = "check"; last = words "read_screen"; loop_counts = [] })
unfolding step
one_turn = refl

abbrev at : String → String → Map ℕ → ExecState Value
at current last counts = record { current = current; last = words last; loop_counts = counts }

-- The form is filled in with two turns of its loop.
two_rounds : Reach json host form (at "press" "press_key" (("again", 2) ∷ []))
unfolding step
two_rounds =
    turn {s = at "again" "press_key" (("again", 1) ∷ [])} []
      (turn {s = at "press" "read_screen" (("again", 1) ∷ [])} []
        (turn {s = at "again" "read_screen" []} []
          (turn {s = at "check" "read_screen" []} [] (turn [] start one_turn) refl) refl)
        refl)
      refl

two_entries : entries json host form "again" "press" two_rounds ≡ 2
unfolding entries two_rounds
two_entries = refl

same_name : {a b : String} → some a ≡ some b → a ≡ b
same_name e = cc

false-true : false ≢ true
false-true e = cc

exits_elsewhere : (◌≢◌ {A = Option String} (some "done") (some "press"))
exits_elsewhere e = absurd (false-true ((eq_iff "done" "press").1 (same_name e)))

body_entered_within_example : entries json host form "again" "press" two_rounds ≤ 2
body_entered_within_example =
    body_entered_within json host form "again" "press" (some "done") 2
      (at "press" "press_key" (("again", 2) ∷ [])) form-IsValid refl exits_elsewhere two_rounds

lacks_ghost : (run_with_cancel json host ghost []).0 ≡ err (missing_node "ghost")
unfolding run_with_cancel run_loop validate_workflow contains_executable_code code_values
    has_code_key unsafe_bound node_edges
lacks_ghost = refl

missing_node_cause_example :
    IsValid json ghost × (DeadEnd ghost "ghost" ⊎ ReadsMissing ghost "ghost")
missing_node_cause_example = missing_node_cause json host ghost [] "ghost" lacks_ghost

-- The intents that the form declares.
abbrev Declared : List String → Type 0
Declared log = All (λ intent. (intent ≡ "read_screen") ⊎ (intent ≡ "press_key")) log

declared_intents :
    (intent : String) (params : Value)
    → Declares json form intent params
    → (intent ≡ "read_screen") ⊎ (intent ≡ "press_key")
declared_intents intent params (by_act id _ _ next e) = ground (arith, e)
declared_intents intent params (by_observe id _ next e) = ground (arith, e)

host_keeps : Kept json host form Declared
host_keeps = record {
  action_keeps = λ log intent params d h. (declared_intents intent params d, h);
  verifier_keeps = λ log criterion value h. h;
  waiter_keeps = λ log event timeout_ms h. h;
  cancel_keeps = λ log h. h;
}

run_keeps_example : Declared (run_with_cancel json host form []).1
run_keeps_example = run_keeps json host form host_keeps [] tt
