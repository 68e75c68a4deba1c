-- ===== src/Runtime/Operate.antt =====
-- `Runtime::operate` of crates/comptrol-core/src/lib.rs: the gates, the write-ahead records, the
-- dispatch, and what is remembered of the result.
use comptrol.Base.{
  String, str_append, Bool, true, false, not, ◌&&◌, Option, none, some, [], ◌∷◌, if◌then◌else◌,
  is_some, ◌>>◌, ensure, eq_string,
}
use comptrol.Events.{EventBus, emit}
use comptrol.Runtime.Types.{
  Risk, r0, r1, r2, r3, r4, mutation, OperationRequest, ActionResult, DeliveryState, not_dispatched,
  delivered, delivery_refused, delivery_unknown, EffectState, effect_not_attempted, no_effect,
  changed, effect_unknown, VerificationState, verification_not_attempted, verified, unverified,
  verification_failed, RecoveryState, requires_reconciliation, no_recovery, undisturbed,
}
use comptrol.Runtime.Risks.{effective_risk}
use comptrol.Runtime.Policy.{policy_authorize}
use comptrol.Runtime.Journal.{complete_operation}
use comptrol.Runtime.Idempotency.{cache_idempotency}
use comptrol.Runtime.State.{Runtime, RoutePlan, Host, Moment}
use comptrol.Runtime.Gates.{
  Reply, remembered, Gate, refuse, unknown_gate, policy_gate, schema_gate, consent_covers,
  consent_gate_applies, known_posture,
}

-- The enumerations as serde writes them.
abbrev pub delivery_name : DeliveryState → String
delivery_name not_dispatched = "not_dispatched"
delivery_name delivered = "delivered"
delivery_name delivery_refused = "refused"
delivery_name delivery_unknown = "unknown"

abbrev pub effect_name : EffectState → String
effect_name effect_not_attempted = "not_attempted"
effect_name no_effect = "none"
effect_name changed = "changed"
effect_name effect_unknown = "unknown"

abbrev pub verification_name : VerificationState → String
verification_name verification_not_attempted = "not_attempted"
verification_name verified = "verified"
verification_name unverified = "unverified"
verification_name verification_failed = "failed"

abbrev pub risk_name : Risk → String
risk_name r0 = "R0"
risk_name r1 = "R1"
risk_name r2 = "R2"
risk_name r3 = "R3"
risk_name r4 = "R4"

abbrev pub is_unknown : DeliveryState → Bool
is_unknown delivery_unknown = true
is_unknown _ = false

abbrev pub needs_reconciliation : RecoveryState → Bool
needs_reconciliation requires_reconciliation = true
needs_reconciliation _ = false

abbrev pub or_none : Option String → String
or_none none = "none"
or_none (some route) = route

module _ {V F W : Type 0} (h : Host V F W) where
  -- The two events of a result.
  report_events : Moment V F → EventBus V → ActionResult V → EventBus V
  report_events m bus result =
      let text = h.json.of_string in
      let done = emit h.json bus (record {
        kind = "operation.completed";
        payload = h.json.object (
            ("operation_id", text result.operation_id)
            ∷ ("intent", text result.intent)
            ∷ ("verification", text (verification_name result.verification))
            ∷ []);
        now = m.completed_ms;
      }) in
      (emit h.json done.1 (record {
        kind = "trace.span";
        payload = h.json.object (
            ("trace_id", text result.operation_id)
            ∷ ("span", text "operate")
            ∷ ("intent", text result.intent)
            ∷ ("route", text result.route)
            ∷ ("verification", text (verification_name result.verification))
            ∷ ("delivery", text (delivery_name result.delivery))
            ∷ ("effect", text (effect_name result.effect))
            ∷ []);
        now = m.span_ms;
      })).1

  -- `Runtime::remember`; an error of the journal is only printed.
  unfoldable pub remember :
      Moment V F → Runtime V F → OperationRequest V → ActionResult V → Runtime V F
  unfolding report_events
  remember m rt request result = record rt {
    cache =
        if is_unknown result.delivery
        then rt.cache
        else if needs_reconciliation result.recovery
        then rt.cache
        else cache_idempotency rt.cache request.idempotency_key
            (some (h.digests.request_fingerprint request)) result;
    operations =
        (complete_operation h.digests m.complete_answer rt.operations request result).journal;
    events = report_events m rt.events result;
  }

  -- What a dry run answers.
  unfoldable pub dry_result : OperationRequest V → String → RoutePlan V → ActionResult V
  dry_result request operation_id plan = record {
    operation_id = operation_id;
    intent = request.intent;
    route = or_none plan.selected;
    target = request.target;
    preflight = if is_some plan.selected then "passed" else "failed";
    delivery = not_dispatched;
    effect = effect_not_attempted;
    verification = verification_not_attempted;
    disturbance = undisturbed h.json;
    recovery = no_recovery;
    data_value = h.json.object (
        ("dry_run", h.json.of_bool true)
        ∷ ("risk", h.json.of_string (risk_name (effective_risk request)))
        ∷ ("route_plan", plan.as_json)
        ∷ []);
    error =
        if is_some plan.selected
        then none
        else some (record {
          code = "route_unavailable";
          message = plan.rationale;
          recovery = some "Inspect routes and satisfy the selected route's feasibility gates";
        });
  }

  unfoldable pub consent_refusal : OperationRequest V → String → Bool → Reply V
  consent_refusal request operation_id true =
      refuse h.json request operation_id "consent_required"
        (str_append "No active consent grant covers " request.intent)
        (some "Run local setup to grant this capability, or ask the user to approve it")
  consent_refusal request operation_id false =
      refuse h.json request operation_id "consent_store_unavailable"
        "Persistent consent records could not be verified"
        (some "Repair or recreate the local consent store before retrying this action")

  -- The gates from the posture to the route.
  unfoldable pub admit : Moment V F → Runtime V F → OperationRequest V → String → Gate V
  unfolding consent_refusal dry_result
  admit m rt request operation_id =
      let risk = effective_risk request in
      let plan = h.route_plan request rt.route_history rt.policy in
      ensure (known_posture request.background) (
        refuse h.json request operation_id "invalid_input" "Unknown background posture" (
          some
            "Use strict_background, prefer_background, foreground_allowed, or foreground_required"))
      >> (unknown_gate h rt request request.idempotency_key
          >> (ensure (not (mutation risk && m.stop_engaged)) (
                refuse h.json request operation_id "stopped"
                  "The local emergency stop latch is engaged"
                  (some "A human must resume the daemon locally"))
              >> (policy_gate h request operation_id
                    (policy_authorize rt.policy request.intent risk)
                  >> (schema_gate h request operation_id
                        (h.validate_params request.intent request.params)
                      >> (ensure
                            (not (
                              (mutation risk && consent_gate_applies request.intent)
                              && not (consent_covers h rt.consent m.consent_ms request risk)))
                            (consent_refusal request operation_id (is_some rt.consent))
                          >> (ensure (not request.dry_run)
                                (remembered (dry_result request operation_id plan))
                              >> ensure (is_some plan.selected) (
                                  refuse h.json request operation_id "route_unavailable"
                                    plan.rationale
                                    (some
                                      "Inspect routes and satisfy the selected route's feasibility gates"))))))))
