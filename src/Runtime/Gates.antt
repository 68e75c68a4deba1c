-- ===== src/Runtime/Gates.antt =====
-- The gates of `operate` in crates/comptrol-core/src/lib.rs, in their order: what the runtime knows of
-- the idempotency key, then the checks up to the choice of a route. A gate lets the request pass or
-- ends the call with a reply.
use comptrol.Base.{
  ℕ, String, str_append, Bool, true, false, not, ◌&&◌, ◌||◌, Option, none, some, [], ◌∷◌, ◌==◌,
  eq_string, eq_option, if◌then◌else◌, any, find, get, contains_key, values, Result, ok, err, ◌>>◌,
  ensure,
}
use comptrol.Json.{Json}
use comptrol.Consent.{ConsentDecision, allowed, denied}
use comptrol.Consent.{
  Risk as ConsentRisk, r0 as consent_r0, r1 as consent_r1, r2 as consent_r2, r3 as consent_r3,
}
use comptrol.Consent.Store.{ConsentStore, authorize}
use comptrol.Runtime.Types.{
  Risk, r0, r1, r2, r3, r4, Target, OperationRequest, ComptrolError, ActionResult, delivery_unknown,
  effect_unknown, unverified, requires_reconciliation, idempotent_replay, refused_result,
}
use comptrol.Runtime.Risks.{one_of}
use comptrol.Runtime.Journal.{DurableOperation, is_open}
use comptrol.Runtime.State.{Runtime, Host}

-- A reply that is returned as it is, or one that `remember` sees first.
pub data Reply (V : Type 0) : Type 0 where
  returned : ActionResult V → Reply V
  remembered : ActionResult V → Reply V

abbrev pub Gate : Type 0 → Type 0
Gate V = Result (Reply V) (Unit {0})

-- `to_consent_risk`
abbrev pub to_consent_risk : Risk → ConsentRisk
to_consent_risk r0 = consent_r0
to_consent_risk r1 = consent_r1
to_consent_risk r2 = consent_r2
to_consent_risk r3 = consent_r3
to_consent_risk r4 = consent_r3

unfoldable pub consent_gate_applies : String → Bool
consent_gate_applies intent =
    one_of
      ("software.install" ∷ "software.update" ∷ "software.uninstall" ∷ "settings.set"
        ∷ "settings.write" ∷ "software.launch_after_install" ∷ [])
      intent

abbrev pub or_else : {A : Type 0} → Option A → Option A → Option A
or_else none other = other
or_else (some a) other = some a

-- The identity or else the name of the target.
abbrev pub consent_resource : Option Target → Option String
consent_resource none = none
consent_resource (some target) = or_else target.id target.name

abbrev pub is_allowed : ConsentDecision → Bool
is_allowed (allowed grant_id) = true
is_allowed (denied reason) = false

abbrev pub known_posture : Option String → Bool
known_posture none = true
known_posture (some background) =
    one_of
      ("strict_background" ∷ "prefer_background" ∷ "foreground_allowed" ∷ "foreground_required"
        ∷ [])
      background

abbrev pub posture_or_default : Option String → String
posture_or_default none = "foreground_allowed"
posture_or_default (some background) = background

module _ {V : Type 0} (json : Json V) where
  -- `idempotency_conflict` and `unknown_result`
  abbrev pub idempotency_conflict : OperationRequest V → String → ActionResult V
  idempotency_conflict request operation_id = refused_result json request operation_id (record {
    code = "idempotency_conflict";
    message = "This idempotency key is already bound to a different or unverifiable request";
    recovery = some "Use a new idempotency key for a changed request";
  })

  abbrev pub unknown_result : OperationRequest V → String → ActionResult V
  unknown_result request operation_id = record {
    operation_id = operation_id;
    intent = request.intent;
    route = "recovery_observation";
    target = request.target;
    preflight = "unknown_after_restart";
    delivery = delivery_unknown;
    effect = effect_unknown;
    verification = unverified;
    disturbance = json.object (
        ("foreground_changed", json.of_bool false)
        ∷ ("mouse", json.of_string "untouched")
        ∷ ("clipboard", json.of_string "untouched")
        ∷ ("posture", json.of_string (posture_or_default request.background))
        ∷ []);
    recovery = requires_reconciliation;
    data_value = json.null;
    error = some (record {
      code = "operation_unknown";
      message = "The operation was recorded as dispatched before the previous runtime stopped";
      recovery = some "Call reconcile after observing the target state";
    });
  }

  abbrev pub replayed : ActionResult V → ActionResult V
  replayed previous = record previous { recovery = idempotent_replay }

  abbrev pub refuse : OperationRequest V → String → String → String → Option String → Reply V
  refuse request operation_id code message recovery = remembered (
      refused_result json request operation_id
        (record { code = code; message = message; recovery = recovery }))

module _ {V F W : Type 0} (h : Host V F W) where
  abbrev pub same_key : String → DurableOperation V → Bool
  same_key key r = r.idempotency_key == some key

  -- A record of the key whose request had another fingerprint.
  abbrev pub other_request : String → String → DurableOperation V → Bool
  other_request key fingerprint r =
      same_key key r && not (r.request_fingerprint == some fingerprint)

  unfoldable pub replay_gate :
      Runtime V F → OperationRequest V → String → String → Option (ActionResult V) → Gate V
  replay_gate rt request operation_id key none = ok tt
  replay_gate rt request operation_id key (some previous) =
      if contains_key rt.cache.conflicts key
        || not (get rt.cache.fingerprints key == some (h.digests.request_fingerprint request))
      then err (returned (idempotency_conflict h.json request operation_id))
      else err (returned (replayed h.json previous))

  -- The first part of `operate`, for a request with a key.
  unfoldable pub identify : Runtime V F → OperationRequest V → String → Option String → Gate V
  unfolding replay_gate
  identify rt request operation_id none = ok tt
  identify rt request operation_id (some key) =
      replay_gate rt request operation_id key (get rt.cache.idempotent key)
      >> ensure
          (not (
            contains_key rt.cache.conflicts key
            || any (other_request key (h.digests.request_fingerprint request))
                (values rt.operations.records)))
          (returned (idempotency_conflict h.json request operation_id))

  unfoldable pub open_record : OperationRequest V → Option (DurableOperation V) → Gate V
  open_record request none = ok tt
  open_record request (some r) =
      ensure (not (is_open r.state)) (returned (unknown_result h.json request r.operation_id))

  unfoldable pub unknown_gate : Runtime V F → OperationRequest V → Option String → Gate V
  unfolding open_record
  unknown_gate rt request none = ok tt
  unknown_gate rt request (some key) =
      open_record request (find (same_key key) (values rt.operations.records))

  unfoldable pub policy_gate :
      OperationRequest V → String → Result ComptrolError (Unit {0}) → Gate V
  policy_gate request operation_id (ok done) = ok tt
  policy_gate request operation_id (err e) =
      err (remembered (refused_result h.json request operation_id e))

  unfoldable pub schema_gate : OperationRequest V → String → Result String (Unit {0}) → Gate V
  schema_gate request operation_id (ok done) = ok tt
  schema_gate request operation_id (err message) = err (
      refuse h.json request operation_id "invalid_input" message
        (elim (h.schema_intent request.intent) [
          | none ↦ none
          | some name ↦ some (str_append "Use the intent_schema tool for " name)
        ]))

  unfoldable pub consent_covers : Option ConsentStore → ℕ → OperationRequest V → Risk → Bool
  consent_covers none now request risk = false
  consent_covers (some store) now request risk = is_allowed (
      authorize store now request.intent request.intent (to_consent_risk risk)
        (consent_resource request.target))
