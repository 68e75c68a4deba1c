-- ===== src/Runtime/Dispatch.antt =====
-- How `operate` of crates/comptrol-core/src/lib.rs is put together: the operation's identity, the
-- start of a browser with the refresh of the policy, the gates, the write-ahead records and the dispatch.
use comptrol.Base.{
  ◌+◌, ◌%◌, ◌^◌, String, str_append, decimal, is_blank, Bool, not, ◌&&◌, ◌||◌, ◌==◌, Option, none,
  some, if◌then◌else◌, insert, Map, ok, err, eq_string,
}
use text.Mathlib.Text.{starts_with}
use comptrol.Runtime.Types.{mutation, OperationRequest, ActionResult, refused_result}
use comptrol.Runtime.Risks.{effective_risk}
use comptrol.Runtime.Journal.{
  OperationJournal, JournalWrite, and_then, prepare, mark_authorized, mark_dispatched,
}
use comptrol.Runtime.Routes.{record_route_outcome}
use comptrol.Runtime.State.{Runtime, Host, Moment, Executor}
use comptrol.Runtime.Gates.{Reply, returned, remembered, identify, refuse, Gate}
use comptrol.Runtime.Operate.{remember, admit}

-- `chrome_autostart::intent_needs_browser`
unfoldable pub intent_needs_browser : String → Bool
intent_needs_browser intent =
    starts_with intent "browser.cdp."
    || (intent == "browser.ensure_session" || intent == "browser.session.connect")

module _ {V F W : Type 0} (h : Host V F W) where
  -- `Runtime::next_operation_id`; the counter has 64 bits.
  unfoldable pub next_operation_id : Moment V F → Runtime V F → String × Runtime V F
  next_operation_id m rt =
      let sequence = (rt.sequence + 1) % 2 ^ 64 in
      (
        str_append "op-" (str_append (decimal m.id_ms) (str_append "-" (decimal sequence))),
        record rt { sequence = sequence },
      )

  -- The key, unless it is blank.
  unfoldable pub operation_id_of : Moment V F → Runtime V F → Option String → String × Runtime V F
  unfolding next_operation_id
  operation_id_of m rt none = next_operation_id m rt
  operation_id_of m rt (some key) = if is_blank key then next_operation_id m rt else (key, rt)

  abbrev pub after_ensure : Moment V F → Runtime V F → Bool × W → Runtime V F × W
  after_ensure m rt (ensured, world) = (
    if ensured && not m.browser_gate_was_open
        then record rt { policy = m.environment_policy }
        else rt,
    world,
  )

  -- A browser intent starts the browser, before the later gates.
  unfoldable pub refresh_policy :
      Moment V F → Runtime V F → OperationRequest V → W → Runtime V F × W
  refresh_policy m rt request world =
      if intent_needs_browser request.intent
      then after_ensure m rt (h.ensure_browser world)
      else (rt, world)

  -- `prepare`, `authorized` and `dispatched` joined by `and_then`.
  unfoldable pub write_ahead :
      Moment V F → OperationJournal V → OperationRequest V → String → JournalWrite V
  write_ahead m journal request operation_id =
      and_then
        (and_then
          (prepare h.digests m.prepare_answer journal request operation_id (effective_risk request))
          (λ j. mark_authorized m.authorized_answer j operation_id))
        (λ j. mark_dispatched m.dispatched_answer j operation_id)

  unfoldable pub run_executor :
      Option (Executor V F W)
      → Runtime V F
      → OperationRequest V
      → String
      → W
      → ActionResult V × (Runtime V F × W)
  run_executor (some execute) rt request operation_id world = execute rt request operation_id world
  run_executor none rt request operation_id world = (
    refused_result h.json request operation_id (record {
      code = "unsupported_capability";
      message = str_append "No route is implemented for " request.intent;
      recovery = some "Inspect capabilities and use a supported intent";
    }),
    (rt, world),
  )

  unfoldable pub timed : Moment V F → ActionResult V → Option (Map V) → ActionResult V
  timed m result none = result
  timed m result (some fields) = record result {
    data_value = h.json.object (insert fields "_comptrol_timing" m.timing);
  }

  -- `_comptrol_timing` in data that is an object.
  unfoldable pub with_timing : Moment V F → ActionResult V → ActionResult V
  unfolding timed
  with_timing m result = timed m result (h.json.as_object result.data_value)

  unfoldable pub record_outcome : Moment V F → Runtime V F → ActionResult V → Runtime V F
  record_outcome m rt result = record rt {
    route_history =
        record_route_outcome h.json h.floats rt.route_history result m.latency_ms m.outcome_ms;
  }

  unfoldable pub finish :
      Moment V F
      → OperationRequest V
      → ActionResult V × (Runtime V F × W)
      → ActionResult V × (Runtime V F × W)
  unfolding with_timing record_outcome
  finish m request (raw, (rt, world)) =
      let result = with_timing m raw in
      (result, (remember h m (record_outcome m rt result) request result, world))

  unfoldable pub dispatch :
      Moment V F
      → Runtime V F
      → OperationRequest V
      → String
      → W
      → ActionResult V × (Runtime V F × W)
  unfolding run_executor finish
  dispatch m rt request operation_id world =
      finish m request (run_executor (h.executor request.intent) rt request operation_id world)

  unfoldable pub settle :
      Moment V F
      → Runtime V F
      → OperationRequest V
      → W
      → Reply V
      → ActionResult V × (Runtime V F × W)
  settle m rt request world (returned result) = (result, (rt, world))
  settle m rt request world (remembered result) = (result, (remember h m rt request result, world))

  unfoldable pub dispatch_written :
      Moment V F
      → Runtime V F
      → OperationRequest V
      → String
      → W
      → JournalWrite V
      → ActionResult V × (Runtime V F × W)
  unfolding settle dispatch
  dispatch_written m rt request operation_id world w = elim w.answer [
    | ok done ↦ dispatch m (record rt { operations = w.journal }) request operation_id world
    | err message ↦
        settle m (record rt { operations = w.journal }) request world
          (refuse h.json request operation_id "recovery_unavailable" message
            (some "Repair the local operation journal before allowing mutations"))
  ]

  -- What `operate` does once a route is chosen.
  unfoldable pub carry_out :
      Moment V F
      → Runtime V F
      → OperationRequest V
      → String
      → W
      → ActionResult V × (Runtime V F × W)
  unfolding dispatch_written write_ahead
  carry_out m rt request operation_id world =
      if mutation (effective_risk request)
      then dispatch_written m rt request operation_id world
          (write_ahead m rt.operations request operation_id)
      else dispatch m rt request operation_id world

  -- A gate that ends the call, or what comes after it.
  unfoldable pub after_gate :
      Moment V F
      → Runtime V F
      → OperationRequest V
      → W
      → ActionResult V × (Runtime V F × W)
      → Gate V
      → ActionResult V × (Runtime V F × W)
  unfolding settle
  after_gate m rt request world next (ok done) = next
  after_gate m rt request world next (err reply) = settle m rt request world reply

  unfoldable pub admit_and_carry_out :
      Moment V F
      → Runtime V F
      → OperationRequest V
      → String
      → W
      → ActionResult V × (Runtime V F × W)
  unfolding after_gate carry_out
  admit_and_carry_out m rt request operation_id world =
      after_gate m rt request world (carry_out m rt request operation_id world)
        (admit h m rt request operation_id)

  -- `Runtime::operate`
  unfoldable pub operate :
      Moment V F → Runtime V F → OperationRequest V → W → ActionResult V × (Runtime V F × W)
  unfolding operation_id_of refresh_policy after_gate admit_and_carry_out
  operate m rt request world =
      let (operation_id, rt1) = operation_id_of m rt request.idempotency_key in
      let (rt2, started) = refresh_policy m rt1 request world in
      after_gate m rt1 request world (admit_and_carry_out m rt2 request operation_id started)
        (identify h rt1 request operation_id request.idempotency_key)
