-- ===== src/Runtime/Examples/Runs.antt =====
-- The theorems on the runtime at concrete calls.
use comptrol.Base.{
  ℕ, ◌≡◌, ◌≢◌, refl, sym, ◌∙◌, inl, inr, eq_string, ◌++◌, String, true, false, Option, none, some,
  List, [], ◌∷◌, is_blank, get,
}
use comptrol.Workflow.Examples.Values.{Value}
use comptrol.Runtime.Types.{mutation}
use comptrol.Runtime.Risks.{classify, effective_risk}
use comptrol.Runtime.Journal.{
  OperationJournal, DurableOperation, prepare, mark_authorized, mark_dispatched, complete_operation,
}
use comptrol.Runtime.Gates.{consent_gate_applies, identify, unknown_gate, policy_gate, schema_gate}
use comptrol.Runtime.Operate.{admit, remember}
use comptrol.Runtime.Policy.{policy_authorize}
use comptrol.Runtime.Dispatch.{intent_needs_browser, refresh_policy, operate, dispatch}
use comptrol.Runtime.Safety.{
  Executed, Untouched, started, moved-IsAdmitted, stop_latch_holds, entered, id_of, numbered, IsNew,
}
use comptrol.Runtime.Admission.{IsAdmitted}
use comptrol.Runtime.WriteAhead.{mutation_written_ahead}
use comptrol.Runtime.Journal.Writes.{dispatched_record}
use comptrol.Runtime.Types.{requires_reconciliation, unverified}
use comptrol.Runtime.State.{Host, Executor}
use comptrol.Runtime.Examples.Fixtures.{done_result, Ran, host, moment, idle, asking}

write_runs :
    (operate host (moment false) idle (asking "filesystem.write" false) []).1.1 ≡ "key-1" ∷ []
unfolding intent_needs_browser operate identify is_blank admit unknown_gate effective_risk
    policy_gate policy_authorize schema_gate consent_gate_applies prepare mark_authorized
    mark_dispatched
write_runs = refl

cons_moves : (x : String) (xs : Ran) → x ∷ xs ≢ []
cons_moves x xs e = absurd (cc)

no_browser : intent_needs_browser "filesystem.write" ≡ false
unfolding intent_needs_browser
no_browser = refl

write_moves :
    Executed host
      (asking "filesystem.write" false)
      []
      (operate host (moment false) idle (asking "filesystem.write" false) []).1.1
write_moves u = elim u [
  | inl still ↦ cons_moves "key-1" [] (sym write_runs ∙ still)
  | inr (browser, e) ↦ cc (browser, no_browser)
]

moved-IsAdmitted_example :
    IsNew host
      (numbered host (moment false) idle (asking "filesystem.write" false))
      (asking "filesystem.write" false)
      (some "key-1")
    × IsAdmitted host
        (moment false)
        (entered host (moment false) idle (asking "filesystem.write" false) [])
        (asking "filesystem.write" false)
moved-IsAdmitted_example =
    moved-IsAdmitted host (moment false) idle (asking "filesystem.write" false) [] write_moves

clicks_mutate : mutation (classify "browser.cdp.click") ≡ true
unfolding classify
clicks_mutate = refl

writes_mutate : mutation (classify "filesystem.write") ≡ true
unfolding classify
writes_mutate = refl

stop_latch_holds_example :
    Untouched host
      (asking "browser.cdp.click" false)
      []
      (operate host (moment true) idle (asking "browser.cdp.click" false) []).1.1
stop_latch_holds_example =
    stop_latch_holds host (moment true) idle (asking "browser.cdp.click" false) [] refl
      clicks_mutate

-- The browser is started although the latch is engaged.
stopped_click_starts :
    (operate host (moment true) idle (asking "browser.cdp.click" false) []).1.1 ≡ "chrome" ∷ []
unfolding operate identify is_blank admit unknown_gate effective_risk refresh_policy
    intent_needs_browser
stopped_click_starts = refl

mutation_written_ahead_example :
    let operation_id = id_of host (moment false) idle (asking "filesystem.write" false) in
    let r =
      dispatched_record host
        (moment false)
        idle.operations
        (asking "filesystem.write" false)
        operation_id in
    (journal : OperationJournal Value) × (operate host
        (moment false)
        idle
        (asking "filesystem.write" false)
        []
      ≡ dispatch host
          (moment false)
          (record (entered host (moment false) idle (asking "filesystem.write" false) []) {
            operations = journal;
          })
          (asking "filesystem.write" false)
          operation_id
          (started host (moment false) idle (asking "filesystem.write" false) []))
    × (get journal.records operation_id ≡ some r)
    × (journal.log.tail ≡ none)
    × (lines : List (Option (DurableOperation Value))) × (journal.log.lines ≡ lines ++ some r ∷ [])
mutation_written_ahead_example =
    mutation_written_ahead host (moment false) idle (asking "filesystem.write" false) []
      writes_mutate write_moves

-- A result that is delivered and asks for reconciliation is not kept for replay, and its record is
-- not open, so the same request runs again.
abbrev run_unsettled : Executor Value ℕ Ran
run_unsettled rt request operation_id world = (
  record (done_result request operation_id) {
    recovery = requires_reconciliation;
    verification = unverified;
  },
  (rt, operation_id ∷ world),
)

abbrev unsettled_host : Host Value ℕ Ran
unsettled_host = record host { executor = λ intent. some run_unsettled }

unsettled_runs_twice :
    (operate unsettled_host
      (moment false)
      (operate unsettled_host (moment false) idle (asking "filesystem.write" false) []).1.0
      (asking "filesystem.write" false)
      ("key-1" ∷ [])).1.1
    ≡ "key-1" ∷ "key-1" ∷ []
unfolding intent_needs_browser operate identify is_blank admit unknown_gate effective_risk
    policy_gate policy_authorize schema_gate consent_gate_applies prepare mark_authorized
    mark_dispatched remember complete_operation
unsettled_runs_twice = refl
