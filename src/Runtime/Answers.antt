-- ===== src/Runtime/Answers.antt =====
-- The identity under which the gates of `operate` in crates/comptrol-core/src/lib.rs answer.
use comptrol.Base.{
  ◌≡◌, refl, inl, inr, String, Bool, true, false, not, ◌&&◌, Option, none, some, Result, ok, err,
  ensure, ◌>>◌, find, values, is_some, get, contains_key, ◌||◌, ◌==◌, eq_string, eq_option,
  Bool-cases,
}
use comptrol.Runtime.Types.{OperationRequest, ActionResult, ComptrolError, mutation}
use comptrol.Runtime.Risks.{effective_risk}
use comptrol.Runtime.Journal.{DurableOperation}
use comptrol.Runtime.State.{Runtime, Host, Moment}
use comptrol.Runtime.Gates.{
  Reply, returned, remembered, Gate, identify, replay_gate, unknown_gate, open_record, policy_gate,
  schema_gate, same_key, consent_gate_applies, consent_covers, refuse,
}
use comptrol.Runtime.Operate.{admit, consent_refusal, dry_result}

module _ {V F W : Type 0} (h : Host V F W) (m : Moment V F) (request : OperationRequest V) where
  -- What a gate gives to `remember` stands under the identity.
  abbrev pub Answers : String → Reply V → Type 0
  Answers id (returned result) = Unit
  Answers id (remembered result) = result.operation_id ≡ id

  unfoldable pub Under : String → Gate V → Type 0
  Under id (ok done) = Unit
  Under id (err reply) = Answers id reply

  Under-seq : (id : String) (a b : Gate V) → Under id a → Under id b → Under id (a >> b)
  unfolding Under
  Under-seq id (ok done) b u v = v
  Under-seq id (err reply) b u v = u

  Under-ensure : (id : String) (b : Bool) (e : Reply V) → Answers id e → Under id (ensure b e)
  unfolding Under
  Under-ensure id true e u = tt
  Under-ensure id false e u = u

  policy-Under :
      (id : String) (checked : Result ComptrolError (Unit {0}))
      → Under id (policy_gate h request id checked)
  unfolding policy_gate Under
  policy-Under id (ok done) = tt
  policy-Under id (err e) = refl

  schema-Under :
      (id : String) (checked : Result String (Unit {0}))
      → Under id (schema_gate h request id checked)
  unfolding schema_gate Under
  schema-Under id (ok done) = tt
  schema-Under id (err e) = refl

  open-Under : (id : String) (o : Option (DurableOperation V)) → Under id (open_record h request o)
  unfolding open_record Under
  open-Under id none = tt
  open-Under id (some r) = Under-ensure id _ _ tt

  unknown-Under :
      (rt : Runtime V F) (id : String) (key : Option String)
      → Under id (unknown_gate h rt request key)
  unfolding unknown_gate Under
  unknown-Under rt id none = tt
  unknown-Under rt id (some key) =
      open-Under id (find (same_key h key) (values rt.operations.records))

  consent-Under : (id : String) (b : Bool) → Answers id (consent_refusal h request id b)
  unfolding consent_refusal
  consent-Under id true = refl
  consent-Under id false = refl

  replay-Under :
      (rt : Runtime V F) (id key : String) (o : Option (ActionResult V))
      → Under id (replay_gate h rt request id key o)
  unfolding replay_gate Under
  replay-Under rt id key none = tt
  replay-Under rt id key (some previous) =
      elim (Bool-cases (
        contains_key rt.cache.conflicts key
        || not (get rt.cache.fingerprints key == some (h.digests.request_fingerprint request)))) [
          | inl clash ↦ rw clash tt
          | inr fine ↦ rw fine tt
        ]

  pub admit-Under : (rt : Runtime V F) (id : String) → Under id (admit h m rt request id)
  unfolding admit dry_result
  admit-Under rt id =
      let plan = h.route_plan request rt.route_history rt.policy in
      Under-seq id _ _ (Under-ensure id _ _ refl) (
        Under-seq id _ _ (unknown-Under rt id request.idempotency_key) (
          Under-seq id _ _ (Under-ensure id _ _ refl) (
            Under-seq id _ _ (policy-Under id _) (
              Under-seq id _ _ (schema-Under id _) (
                Under-seq id _ _
                  (Under-ensure id
                    (not (
                      (mutation (effective_risk request) && consent_gate_applies request.intent)
                      && not (
                          consent_covers h rt.consent m.consent_ms request
                            (effective_risk request))))
                    _ (consent-Under id (is_some rt.consent)))
                  (Under-seq id _ _
                    (Under-ensure id (not request.dry_run)
                      (remembered (dry_result h request id plan)) refl)
                    (Under-ensure id (is_some plan.selected)
                      (refuse h.json request id "route_unavailable" plan.rationale
                        (some "Inspect routes and satisfy the selected route's feasibility gates"))
                      refl)))))))

  pub identify-Under :
      (rt : Runtime V F) (id : String) (key : Option String)
      → Under id (identify h rt request id key)
  unfolding identify Under
  identify-Under rt id none = tt
  identify-Under rt id (some key) =
      Under-seq id _ _ (replay-Under rt id key (get rt.cache.idempotent key))
        (Under-ensure id _ _ tt)
