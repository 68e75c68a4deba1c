-- ===== src/Runtime/Types.antt =====
-- The requests and results of crates/comptrol-core/src/lib.rs. `V` is the type of JSON values. The
-- field `data` of a result is `data_value`. Texts that name a state for a machine (`route`,
-- `preflight`, `code`) stay texts.
use comptrol.Base.{
  Bool-cases, inl, inr, ℕ, ◌≡◌, ◌≤◌, String, Bool, true, false, Option, some, [], ◌∷◌, ltb,
  if◌then◌else◌, arith,
}
use comptrol.Json.{Json}

pub data Risk : Type 0 where
  r0 r1 r2 r3 r4 : Risk

-- The derived order of `Risk`.
abbrev pub level : Risk → ℕ
level r0 = 0
level r1 = 1
level r2 = 2
level r3 = 3
level r4 = 4

abbrev pub risk_exceeds : Risk → Risk → Bool
risk_exceeds a b = ltb (level b) (level a)

abbrev pub risk_max : Risk → Risk → Risk
risk_max a b = if risk_exceeds a b then a else b

-- `Risk::mutation`
abbrev pub mutation : Risk → Bool
mutation risk = risk_exceeds risk r0

pub record Target : Type 0 where
  pub kind : String
  pub id : Option String
  pub name : Option String

pub record OperationRequest (V : Type 0) : Type 0 where
  pub intent : String
  pub target : Option Target
  pub params : V
  pub postcondition : Option V
  pub risk : Option Risk
  pub idempotency_key : Option String
  pub dry_run : Bool
  pub background : Option String

pub data DeliveryState : Type 0 where
  not_dispatched delivered delivery_refused delivery_unknown : DeliveryState

pub data EffectState : Type 0 where
  effect_not_attempted no_effect changed effect_unknown : EffectState

pub data VerificationState : Type 0 where
  verification_not_attempted verified unverified verification_failed : VerificationState

pub data RecoveryState : Type 0 where
  no_recovery idempotent_replay requires_reconciliation stopped : RecoveryState

pub record ComptrolError : Type 0 where
  pub code : String
  pub message : String
  pub recovery : Option String

pub record ActionResult (V : Type 0) : Type 0 where
  pub operation_id : String
  pub intent : String
  pub route : String
  pub target : Option Target
  pub preflight : String
  pub delivery : DeliveryState
  pub effect : EffectState
  pub verification : VerificationState
  pub disturbance : V
  pub recovery : RecoveryState
  pub data_value : V
  pub error : Option ComptrolError

module _ {V : Type 0} (json : Json V) where
  -- `json!({ "foreground_changed": false })`
  abbrev pub undisturbed : V
  undisturbed = json.object (("foreground_changed", json.of_bool false) ∷ [])

  -- `ActionResult::refused`
  abbrev pub refused_result : OperationRequest V → String → ComptrolError → ActionResult V
  refused_result request operation_id error = record {
    operation_id = operation_id;
    intent = request.intent;
    route = "policy";
    target = request.target;
    preflight = "failed";
    delivery = delivery_refused;
    effect = effect_not_attempted;
    verification = verification_not_attempted;
    disturbance = undisturbed;
    recovery = no_recovery;
    data_value = json.null;
    error = some error;
  }

pub level-risk_max :
    (a b : Risk) → (level a ≤ level (risk_max a b)) × (level b ≤ level (risk_max a b))
level-risk_max a b = ground arith

pub mutation-risk_max : (a b : Risk) → mutation a ≡ true → mutation (risk_max a b) ≡ true
mutation-risk_max a b e = elim (Bool-cases (risk_exceeds a b)) [
  | inl above ↦ rw above e
  | inr below ↦ rw below (ground (arith, e, below))
]
