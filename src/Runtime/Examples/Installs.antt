-- ===== src/Runtime/Examples/Installs.antt =====
-- A call that needs consent, a crash, the statistics of routes and the switches of the policy.
use comptrol.Base.{
  ℕ, ◌≡◌, ◌≢◌, ◌↔◌, refl, sym, ◌∙◌, String, true, false, none, some, [], ◌∷◌, ok, is_blank, All,
  Has, values,
}
use comptrol.Base.LineLog.{Log}
use comptrol.Workflow.Examples.Values.{Value, json, nothing}
use comptrol.Consent.Scopes.{covers}
use comptrol.Consent.Store.{ConsentStore, ConsentGrant, authorize, expired}
use comptrol.Consent.Store.Gate.{Permits}
use comptrol.Runtime.Types.{mutation, r1, r3}
use comptrol.Runtime.Risks.{classify, effective_risk, one_of}
use comptrol.Runtime.Policy.{policy_authorize}
use comptrol.Runtime.Policy.Environment.{EnvGates, from_gates}
use comptrol.Runtime.Policy.Switches.{high_risk_needs_switch, grave_intents_switch, opens_high_risk}
use comptrol.Runtime.Journal.{
  DurableOperation, DurableState, dispatched, unknown, prepare, mark_authorized, mark_dispatched,
}
use comptrol.Runtime.Journal.Reopen.{open_journal}
use comptrol.Runtime.State.{Runtime}
use comptrol.Runtime.Gates.{
  consent_gate_applies, identify, unknown_gate, policy_gate, schema_gate, to_consent_risk,
  consent_covers,
}
use comptrol.Runtime.Operate.{admit}
use comptrol.Runtime.Dispatch.{operate, intent_needs_browser}
use comptrol.Runtime.Admission.{IsAdmitted, admit_iff}
use comptrol.Runtime.Safety.{moved-Permits, entered, Untouched}
use comptrol.Runtime.Crash.{crash_not_repeated}
use comptrol.Runtime.Routes.{record_route_outcome}
use comptrol.Runtime.Routes.Tally.{IsTallied, record_route_outcome-IsTallied}
use comptrol.Runtime.Examples.Fixtures.{Ran, host, moment, idle, asking, done, done_result}

install_runs :
    (operate host (moment false) idle (asking "software.install" false) []).1.1 ≡ "key-1" ∷ []
unfolding intent_needs_browser operate identify is_blank admit unknown_gate effective_risk
    policy_gate policy_authorize schema_gate consent_gate_applies prepare mark_authorized
    mark_dispatched consent_covers authorize expired covers
install_runs = refl

cons_moves : (x : String) (xs : Ran) → x ∷ xs ≢ []
cons_moves x xs e = absurd (cc)

installs_gated : consent_gate_applies "software.install" ≡ true
unfolding consent_gate_applies
installs_gated = refl

installs_mutate : mutation (classify "software.install") ≡ true
unfolding classify
installs_mutate = refl

install_moves : (operate host (moment false) idle (asking "software.install" false) []).1.1 ≢ []
install_moves e = cons_moves "key-1" [] (sym install_runs ∙ e)

moved-Permits_example :
    (store : ConsentStore) × ((entered host
        (moment false)
        idle
        (asking "software.install" false)
        []).consent
      ≡ some store)
    × (g : ConsentGrant) × Has g store.grants
    × Permits 6 "software.install" "software.install"
        (to_consent_risk (effective_risk (asking "software.install" false)))
        none
        g
moved-Permits_example =
    moved-Permits host (moment false) idle (asking "software.install" false) [] installs_gated
      installs_mutate install_moves

abbrev lost_write : DurableState → DurableOperation Value
lost_write state = record {
  operation_id = "key-1";
  idempotency_key = some "key-1";
  request_fingerprint = some "v1:filesystem.write";
  intent = "filesystem.write";
  risk = r1;
  target = none;
  state = state;
  metadata = nothing;
  result = none;
}

abbrev crash_log : Log (DurableOperation Value)
crash_log = record { lines = some (lost_write dispatched) ∷ []; tail = none }

abbrev restarted : Runtime Value ℕ
restarted = record idle {
  operations = record {
    records = ("key-1", lost_write unknown) ∷ [];
    log = record {
      lines = some (lost_write dispatched) ∷ some (lost_write unknown) ∷ [];
      tail = none;
    };
  };
}

reopened : (open_journal (λ n. done) crash_log).0 ≡ ok restarted.operations
unfolding open_journal
reopened = refl

named : is_blank "key-1" ≡ false
unfolding is_blank
named = refl

crash_not_repeated_example :
    Untouched host
      (asking "filesystem.write" false)
      []
      (operate host (moment false) restarted (asking "filesystem.write" false) []).1.1
crash_not_repeated_example =
    crash_not_repeated host (λ n. done) crash_log [] (lost_write dispatched) "key-1" (moment false)
      restarted (asking "filesystem.write" false) [] refl refl tt refl refl refl reopened refl named

record_route_outcome-IsTallied_example : All IsTallied (
    values (
      record_route_outcome json host.floats []
        (done_result (asking "filesystem.write" false) "op-1")
        12
        7))
record_route_outcome-IsTallied_example =
    record_route_outcome-IsTallied json host.floats []
      (done_result (asking "filesystem.write" false) "op-1") 12 7 tt

abbrev with_commands : EnvGates
with_commands = record {
  sandbox_writes = false;
  desktop_notify = false;
  macos_ax = false;
  app_launch = false;
  app_close = false;
  software = false;
  software_install = false;
  settings = false;
  popup = false;
  commands = true;
  desktop_explorer = false;
  windows_uia = false;
  linux_atspi = false;
  browser_fixture = false;
  all_intents = false;
  browser_cdp = false;
  adapters = false;
  creative_adapters = false;
  high_consequence_adapters = false;
  mail_send = false;
}

commands_allowed : policy_authorize (from_gates with_commands) "command.run" r3 ≡ ok tt
unfolding policy_authorize from_gates
commands_allowed = refl

high_risk_needs_switch_example : opens_high_risk with_commands ≡ true
high_risk_needs_switch_example =
    high_risk_needs_switch with_commands "command.run" r3 commands_allowed refl

grave_intents_switch_example :
    let allows = one_of (from_gates with_commands).allowed_intents in
    (allows "command.run" ≡ true)
    × (allows "software.install" ≡ false)
    × (allows "app.close" ≡ false)
    × (allows "settings.set" ≡ false)
    × (allows "filesystem.write" ≡ false)
    × (allows "mail.send" ≡ false)
grave_intents_switch_example = grave_intents_switch with_commands

admit_iff_example :
    (admit host (moment false) idle (asking "software.install" false) "key-1" ≡ ok tt)
    ↔ IsAdmitted host (moment false) idle (asking "software.install" false)
admit_iff_example = admit_iff host (moment false) idle (asking "software.install" false) "key-1"
