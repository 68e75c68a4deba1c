-- ===== src/Runtime/Policy/Environment.antt =====
-- `EnvGates` and `Policy::from_gates` of crates/comptrol-core/src/lib.rs: how the switches of the
-- environment widen the policy. Each `if` of `from_gates` is a switch: whether it is on, the risk to
-- which it raises the ceiling, or at which it sets it, and the intents that it adds. The switch that
-- is nested in another has both conditions.
use text.Mathlib.Text.{starts_with}
use comptrol.Base.{
  String, Bool, true, false, ◌&&◌, ◌||◌, List, [], ◌∷◌, ◌++◌, keep, leb, if◌then◌else◌,
}
use comptrol.Runtime.Types.{Risk, r1, r2, r3, level, risk_max}
use comptrol.Runtime.Risks.{first_party_adapter_intents, classify}
use comptrol.Runtime.Policy.{Policy}

pub record EnvGates : Type 0 where
  pub sandbox_writes : Bool
  pub desktop_notify : Bool
  pub macos_ax : Bool
  pub app_launch : Bool
  pub app_close : Bool
  pub software : Bool
  pub software_install : Bool
  pub settings : Bool
  pub popup : Bool
  pub commands : Bool
  pub desktop_explorer : Bool
  pub windows_uia : Bool
  pub linux_atspi : Bool
  pub browser_fixture : Bool
  pub all_intents : Bool
  pub browser_cdp : Bool
  pub adapters : Bool
  pub creative_adapters : Bool
  pub high_consequence_adapters : Bool
  pub mail_send : Bool

pub record Switch : Type 0 where
  pub on : Bool
  pub ceiling : Risk
  pub assigns : Bool
  pub intents : List String

abbrev pub is_creative_adapter_intent : String → Bool
is_creative_adapter_intent intent =
    starts_with intent "blender."
    || (starts_with intent "video."
        || (starts_with intent "design." || starts_with intent "presentation."))

-- `classify(intent) <= Risk::R2`
abbrev pub mild : String → Bool
mild intent = leb (level (classify intent)) 2

abbrev pub default_policy : Policy
default_policy = record {
  allow_sandbox_writes = false;
  allow_desktop_notify = false;
  allow_app_launch = true;
  max_risk = r2;
  allowed_intents =
      "system.ping" ∷ "desktop.observe" ∷ "platform.broker.observe" ∷ "browser.cdp.wait_for"
      ∷ "browser.cdp.accessibility_snapshot" ∷ "browser.cdp.discovery"
      ∷ "browser.cdp.reopen_closed_group" ∷ "workflow.execute" ∷ "workflow.speculate" ∷ "recipe.run"
      ∷ "app.resolve" ∷ "app.list" ∷ "app.launch" ∷ "browser.chrome.open_tab" ∷ "permission.status"
      ∷ "popup.inspect" ∷ "browser.session.list" ∷ [];
}

abbrev pub switch : Bool → Risk → Bool → List String → Switch
switch on ceiling assigns intents = record {
  on = on;
  ceiling = ceiling;
  assigns = assigns;
  intents = intents;
}

unfoldable pub switches : EnvGates → List Switch
unfolding classify
switches gates =
    switch (gates.sandbox_writes) r1 false
      ("filesystem.write" ∷ "filesystem.copy" ∷ "filesystem.restore_checkpoint" ∷ [])
    ∷ switch (gates.desktop_notify) r1 false ("desktop.notify" ∷ [])
    ∷ switch (gates.macos_ax) r2 false (
        "macos.ax.press" ∷ "macos.ax.set_value" ∷ "browser.chrome.reopen_closed_group"
        ∷ "browser.chrome.restore_recent" ∷ [])
    ∷ switch (gates.app_launch) r2 false (
        "desktop.open_app" ∷ "app.launch" ∷ "app.resolve" ∷ "app.list" ∷ "app.open_resource"
        ∷ "app.focus" ∷ [])
    ∷ switch (gates.app_close) r3 false ("app.close" ∷ [])
    ∷ switch (gates.software) r1 false ("software.search" ∷ "software.describe" ∷ [])
    ∷ switch (gates.software_install) r3 false
        ("software.install" ∷ "software.update" ∷ "software.uninstall" ∷ [])
    ∷ switch (gates.settings) r2 false (
        "settings.get" ∷ "settings.set" ∷ "settings.write" ∷ "permission.status"
        ∷ "permission.request" ∷ [])
    ∷ switch (gates.popup) r2 false ("popup.inspect" ∷ "popup.dismiss" ∷ [])
    ∷ switch (gates.commands) r3 false ("command.run" ∷ "desktop.terminal" ∷ [])
    ∷ switch (gates.desktop_explorer) r2 false ("desktop.explorer" ∷ [])
    ∷ switch (gates.windows_uia) r2 false
        ("windows.uia.press" ∷ "windows.uia.set_value" ∷ "windows.uia.inspect" ∷ [])
    ∷ switch (gates.linux_atspi) r2 false ("linux.atspi.press" ∷ "linux.atspi.set_value" ∷ [])
    ∷ switch (gates.browser_fixture) r1 false ("browser.fixture.submit" ∷ [])
    ∷ switch (gates.all_intents) r3 true (
        first_party_adapter_intents
        ++ ("system.ping" ∷ "desktop.observe" ∷ "platform.broker.observe" ∷ "browser.cdp.wait_for"
            ∷ "browser.cdp.accessibility_snapshot" ∷ "browser.cdp.reopen_closed_group"
            ∷ "workflow.execute" ∷ "workflow.speculate" ∷ "recipe.run" ∷ "app.resolve" ∷ "app.list"
            ∷ "permission.status" ∷ "popup.inspect" ∷ "browser.session.list"
            ∷ "browser.session.connect" ∷ "browser.ensure_session" ∷ []))
    ∷ switch (gates.browser_cdp) r2 false (
        "browser.ensure_session" ∷ "browser.cdp.discovery" ∷ "browser.cdp.accessibility_snapshot"
        ∷ "browser.cdp.evaluate" ∷ "browser.cdp.frame_evaluate" ∷ "browser.cdp.ensure_state"
        ∷ "browser.cdp.navigate" ∷ "browser.cdp.upload" ∷ "browser.cdp.download"
        ∷ "browser.cdp.fill" ∷ "browser.cdp.click" ∷ "browser.cdp.focus" ∷ "browser.cdp.open_tab"
        ∷ "browser.cdp.close_tab" ∷ "browser.cdp.activate_tab" ∷ "browser.cdp.history_back"
        ∷ "browser.cdp.history_forward" ∷ "browser.cdp.semantic_click" ∷ "browser.cdp.semantic_fill"
        ∷ "browser.cdp.compact_snapshot" ∷ "browser.cdp.workflow" ∷ "browser.cdp.screenshot"
        ∷ "browser.cdp.coordinate_click" ∷ "browser.cdp.type_text" ∷ "browser.cdp.press_key"
        ∷ "browser.cdp.dialog" ∷ "browser.session.connect" ∷ [])
    ∷ switch (gates.adapters) r2 false (keep mild first_party_adapter_intents)
    ∷ switch (gates.adapters && gates.high_consequence_adapters) r3 true (
        "obs.recording.start" ∷ "obs.recording.stop" ∷ "discord.message.delete" ∷ "mail.send"
        ∷ "message.send" ∷ [])
    ∷ switch (gates.mail_send && gates.adapters) r3 true ("mail.send" ∷ [])
    ∷ switch (gates.creative_adapters) r2 false (
        keep (λ intent. is_creative_adapter_intent intent && mild intent)
          first_party_adapter_intents)
    ∷ []

abbrev pub flip : Policy → Switch → Policy
flip policy s =
    if s.on
    then record policy {
      max_risk = if s.assigns then s.ceiling else risk_max policy.max_risk s.ceiling;
      allowed_intents = policy.allowed_intents ++ s.intents;
    }
    else policy

unfoldable pub flip_all : Policy → List Switch → Policy
flip_all policy [] = policy
flip_all policy (s ∷ ss) = flip_all (flip policy s) ss

-- `Policy::from_gates`; the three flags are each set by the switch of their name or by default.
unfoldable pub from_gates : EnvGates → Policy
unfolding flip_all switches
from_gates gates = record (flip_all default_policy (switches gates)) {
  allow_sandbox_writes = gates.sandbox_writes;
  allow_desktop_notify = gates.desktop_notify;
}
