-- ===== src/Runtime/Examples/Fixtures.antt =====
-- A runtime with two intents that change the world, which is the list of what ran, and the moments of
-- its calls.
use comptrol.Base.{
  ℕ, String, str_append, Bool, true, false, Option, none, some, List, [], ◌∷◌, ◌==◌, eq_string,
  if◌then◌else◌, ok,
}
use comptrol.Base.LineLog.{appended}
use comptrol.Workflow.Examples.Values.{Value, nothing, json}
use comptrol.Consent.{r3 as consent_r3}
use comptrol.Consent.Scopes.{local_user}
use comptrol.Consent.Store.{ConsentGrant}
use comptrol.Events.{new_bus}
use comptrol.Runtime.Types.{
  r0, r3, OperationRequest, ActionResult, delivered, changed, verified, no_recovery,
}
use comptrol.Runtime.Journal.{WriteAnswer}
use comptrol.Runtime.Idempotency.{empty_cache}
use comptrol.Runtime.State.{Runtime, Host, Moment, Executor}

abbrev pub Ran : Type 0
Ran = List String

abbrev pub done_result : OperationRequest Value → String → ActionResult Value
done_result request operation_id = record {
  operation_id = operation_id;
  intent = request.intent;
  route = "native";
  target = request.target;
  preflight = "passed";
  delivery = delivered;
  effect = changed;
  verification = verified;
  disturbance = nothing;
  recovery = no_recovery;
  data_value = nothing;
  error = none;
}

abbrev pub run_it : Executor Value ℕ Ran
run_it rt request operation_id world =
    (done_result request operation_id, (rt, operation_id ∷ world))

abbrev pub executor_of : String → Option (Executor Value ℕ Ran)
executor_of intent =
    if intent == "filesystem.write"
    then some run_it
    else if intent == "software.install"
    then some run_it
    else none

abbrev pub host : Host Value ℕ Ran
host = record {
  json = json;
  digests = record {
    request_fingerprint = λ request. str_append "v1:" request.intent;
    operation_metadata = λ request. nothing;
  };
  floats = record { blend = λ previous latency. latency; percentile_95 = λ samples. none };
  ensure_browser = λ world. (true, "chrome" ∷ world);
  validate_params = λ intent params. ok tt;
  schema_intent = λ intent. none;
  route_plan = λ request history policy. record {
    selected = some "native";
    rationale = "the only route";
    as_json = nothing;
  };
  executor = executor_of;
}

abbrev pub done : WriteAnswer
done = record { outcome = appended; message = "" }

abbrev pub moment : Bool → Moment Value ℕ
moment stopped = record {
  id_ms = 5;
  consent_ms = 6;
  outcome_ms = 7;
  completed_ms = 8;
  span_ms = 9;
  browser_gate_was_open = false;
  environment_policy = record {
    allow_sandbox_writes = false;
    allow_desktop_notify = false;
    allow_app_launch = false;
    max_risk = r0;
    allowed_intents = [];
  };
  stop_engaged = stopped;
  prepare_answer = done;
  authorized_answer = done;
  dispatched_answer = done;
  complete_answer = done;
  latency_ms = 12;
  timing = nothing;
}

abbrev pub installer_grant : ConsentGrant
installer_grant = record {
  id = "grant-1";
  capability = "software.install";
  scope = record {
    intent = some "software.install";
    max_risk = some consent_r3;
    resource = none;
    app_id = none;
    lifetime = none;
  };
  subject = local_user;
  risk = consent_r3;
  granted_at_ms = 1;
  conditions = none;
  revocable = true;
  chain = "";
  digest = "";
}

abbrev pub idle : Runtime Value ℕ
idle = record {
  policy = record {
    allow_sandbox_writes = true;
    allow_desktop_notify = false;
    allow_app_launch = true;
    max_risk = r3;
    allowed_intents = "filesystem.write" ∷ "software.install" ∷ [];
  };
  operations = record { records = []; log = record { lines = []; tail = none } };
  consent = some (record { path = "consent.jsonl"; grants = installer_grant ∷ []; head = "" });
  cache = empty_cache;
  route_history = [];
  events = new_bus 256;
  sequence = 0;
}

abbrev pub asking : String → Bool → OperationRequest Value
asking intent dry = record {
  intent = intent;
  target = none;
  params = nothing;
  postcondition = none;
  risk = some r0;
  idempotency_key = some "key-1";
  dry_run = dry;
  background = none;
}
