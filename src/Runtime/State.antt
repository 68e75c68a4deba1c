-- ===== src/Runtime/State.antt =====
-- The state of `Runtime` in crates/comptrol-core/src/lib.rs, what the host gives it, and what a call
-- sees of the world. Leases, checkpoints, the cancellation latch and the adapter hosts are only used
-- by the executors of the intents, which are a parameter. The audit row, the durable event and the
-- trace line of a result go to files whose errors are only printed, and are left out.
use comptrol.Base.{ℕ, String, Bool, Option, Map, Result}
use comptrol.Json.{Json}
use comptrol.Consent.Store.{ConsentStore}
use comptrol.Events.{EventBus}
use comptrol.Runtime.Types.{OperationRequest, ActionResult}
use comptrol.Runtime.Policy.{Policy}
use comptrol.Runtime.Journal.{OperationJournal, WriteAnswer, Digests}
use comptrol.Runtime.Idempotency.{IdempotencyCache}
use comptrol.Runtime.Routes.{RouteHistory, Floats}

pub record Runtime (V F : Type 0) : Type 0 where
  pub policy : Policy
  pub operations : OperationJournal V
  pub consent : Option ConsentStore
  pub cache : IdempotencyCache V
  pub route_history : Map (RouteHistory F)
  pub events : EventBus V
  pub sequence : ℕ

-- `candidates` and the plan as a whole occur only as JSON.
pub record RoutePlan (V : Type 0) : Type 0 where
  pub selected : Option String
  pub rationale : String
  pub as_json : V

-- What runs an intent; a workflow calls the runtime again, so the runtime is handed over.
abbrev pub Executor : Type 0 → Type 0 → Type 0 → Type 0
Executor V F W = Runtime V F → OperationRequest V → String → W → ActionResult V × (Runtime V F × W)

-- Parameters: serde_json and SHA-256, `chrome_autostart::ensure`, which may start a browser and set
-- variables of the environment and so changes the world, `validate_params`, the intent that
-- `schema_for` finds, `route_plan_with_history`, and the arms of the match in `operate`, by intent.
pub record Host (V F W : Type 0) : Type 0 where
  pub json : Json V
  pub digests : Digests V
  pub floats : Floats F
  pub ensure_browser : W → Bool × W
  pub validate_params : String → V → Result String (Unit {0})
  pub schema_intent : String → Option String
  pub route_plan : OperationRequest V → Map (RouteHistory F) → Policy → RoutePlan V
  pub executor : String → Option (Executor V F W)

-- What one call sees: the clock where it is read, whether the switch of the browser was on before
-- one was asked for, the policy that the environment gives after that, the stop latch, the answers
-- of the file system to the writes of the journal, and the time that the executor took.
pub record Moment (V F : Type 0) : Type 0 where
  pub id_ms : ℕ
  pub consent_ms : ℕ
  pub outcome_ms : ℕ
  pub completed_ms : ℕ
  pub span_ms : ℕ
  pub browser_gate_was_open : Bool
  pub environment_policy : Policy
  pub stop_engaged : Bool
  pub prepare_answer : WriteAnswer
  pub authorized_answer : WriteAnswer
  pub dispatched_answer : WriteAnswer
  pub complete_answer : WriteAnswer
  pub latency_ms : F
  pub timing : V
