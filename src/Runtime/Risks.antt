-- ===== src/Runtime/Risks.antt =====
-- The intents of crates/comptrol-core/src/lib.rs and their risks: `FIRST_PARTY_ADAPTER_INTENTS`,
-- `classify` and `effective_risk`. The arms of the match on texts are a table, in the order of the
-- source.
use comptrol.Base.{
  String, Bool, Option, none, some, List, [], ◌∷◌, ◌==◌, eq_string, any, if◌then◌else◌,
}
use comptrol.Runtime.Types.{Risk, r0, r1, r2, r3, risk_max, OperationRequest}

-- `contains(&intent)`, and a match arm with several patterns.
abbrev pub one_of : List String → String → Bool
one_of names intent = any (λ name. name == intent) names

abbrev pub first_party_adapter_intents : List String
first_party_adapter_intents =
    "vscode.workspace.list" ∷ "vscode.setting.get" ∷ "vscode.setting.set" ∷ "vscode.document.open"
    ∷ "vscode.document.save" ∷ "libreoffice.document.open" ∷ "libreoffice.document.save"
    ∷ "libreoffice.calc.range.read" ∷ "libreoffice.calc.range.write"
    ∷ "libreoffice.writer.text.replace" ∷ "libreoffice.document.export" ∷ "obs.scene.list"
    ∷ "obs.scene.switch" ∷ "obs.source.visibility.set" ∷ "obs.recording.status"
    ∷ "obs.recording.start" ∷ "obs.recording.stop" ∷ "blender.scene.object.list"
    ∷ "blender.scene.object.create" ∷ "blender.scene.object.transform"
    ∷ "blender.scene.object.delete" ∷ "blender.scene.create_2d_rocket"
    ∷ "blender.scene.copy_2d_rocket_to_3d" ∷ "blender.project.save" ∷ "blender.render"
    ∷ "video.project.list" ∷ "video.project.open" ∷ "video.project.create" ∷ "video.project.save"
    ∷ "video.media.import" ∷ "video.media.bin.create" ∷ "video.media.list" ∷ "video.timeline.list"
    ∷ "video.timeline.open" ∷ "video.timeline.create" ∷ "video.timeline.items.list"
    ∷ "video.timeline.append" ∷ "video.timeline.insert" ∷ "video.timeline.batch"
    ∷ "video.timeline.marker.add" ∷ "video.timeline.marker.delete"
    ∷ "video.timeline.item.properties.get" ∷ "video.timeline.item.properties.set"
    ∷ "video.render.preset.list" ∷ "video.render.configure" ∷ "video.render.add_job"
    ∷ "video.render.start" ∷ "video.render.status" ∷ "video.render.cancel" ∷ "document.google.read"
    ∷ "document.google.batch_edit" ∷ "document.text.insert" ∷ "document.text.replace"
    ∷ "document.text.style" ∷ "document.export" ∷ "presentation.google.read"
    ∷ "presentation.slide.create" ∷ "presentation.slide.delete" ∷ "presentation.slide.reorder"
    ∷ "presentation.slide.duplicate" ∷ "presentation.text.replace" ∷ "presentation.text.style"
    ∷ "presentation.export" ∷ "presentation.read" ∷ "presentation.batch_edit"
    ∷ "presentation.desktop.open" ∷ "presentation.desktop.batch_edit"
    ∷ "presentation.shape.text.set" ∷ "presentation.shape.textbox.create"
    ∷ "presentation.shape.image.insert" ∷ "presentation.shape.delete"
    ∷ "presentation.shape.geometry.set" ∷ "presentation.save" ∷ "presentation.export_pdf"
    ∷ "discord.message.draft" ∷ "discord.message.send" ∷ "discord.message.edit"
    ∷ "discord.message.delete" ∷ "discord.message.reply" ∷ "discord.message.react"
    ∷ "discord.message.attach" ∷ "discord.message.search" ∷ "mail.draft" ∷ "mail.send"
    ∷ "mail.search" ∷ "mail.read" ∷ "message.draft" ∷ "message.send" ∷ "design.list" ∷ "design.read"
    ∷ "design.page.list" ∷ "design.element.inspect" ∷ "design.text.update" ∷ "design.image.insert"
    ∷ "design.element.create" ∷ "design.element.delete" ∷ "design.element.group"
    ∷ "design.batch_edit" ∷ "design.export" ∷ []

unfoldable pub is_first_party_adapter_intent : String → Bool
is_first_party_adapter_intent intent = one_of first_party_adapter_intents intent

-- The arms of `classify` before the guard and behind it.
abbrev pub classify_first : List (List String × Risk)
classify_first =
    ("system.ping" ∷ "desktop.observe" ∷ "platform.broker.observe" ∷ "workflow.execute" ∷ [], r0)
    ∷ ("workflow.speculate" ∷ "recipe.run" ∷ [], r1)
    ∷ ("app.launch" ∷ [], r1)
    ∷ ("app.resolve" ∷ "app.list" ∷ "permission.status" ∷ "popup.inspect" ∷ [], r0)
    ∷ ("permission.request" ∷ "software.search" ∷ "software.describe" ∷ "settings.get" ∷ [], r1)
    ∷ (
      "app.open_resource" ∷ "app.focus" ∷ "settings.set" ∷ "settings.write" ∷ "popup.dismiss"
          ∷ "browser.session.connect" ∷ "browser.cdp.dialog" ∷ [],
      r2,
    )
    ∷ ("app.close" ∷ "software.install" ∷ "software.update" ∷ "software.uninstall" ∷ [], r3)
    ∷ (
      "desktop.notify" ∷ "filesystem.write" ∷ "filesystem.copy" ∷ "filesystem.restore_checkpoint"
          ∷ [],
      r1,
    )
    ∷ (
      "desktop.open_app" ∷ "macos.ax.press" ∷ "macos.ax.set_value" ∷ "browser.chrome.open_tab"
          ∷ "browser.chrome.restore_recent" ∷ "browser.chrome.reopen_closed_group" ∷ [],
      r2,
    )
    ∷ ("command.run" ∷ [], r3)
    ∷ ("desktop.terminal" ∷ "desktop.explorer" ∷ [], r2)
    ∷ ("windows.uia.inspect" ∷ [], r0)
    ∷ ("windows.uia.press" ∷ "windows.uia.set_value" ∷ [], r2)
    ∷ ("linux.atspi.press" ∷ "linux.atspi.set_value" ∷ [], r2)
    ∷ ("browser.fixture.submit" ∷ [], r1)
    ∷ (
      "browser.cdp.evaluate" ∷ "browser.cdp.frame_evaluate" ∷ "browser.cdp.ensure_state"
          ∷ "browser.cdp.navigate" ∷ "browser.cdp.upload" ∷ "browser.cdp.download"
          ∷ "browser.cdp.fill" ∷ "browser.cdp.click" ∷ "browser.cdp.focus" ∷ "browser.cdp.open_tab"
          ∷ "browser.cdp.close_tab" ∷ "browser.cdp.history_back" ∷ "browser.cdp.history_forward"
          ∷ "browser.cdp.semantic_click" ∷ "browser.cdp.semantic_fill"
          ∷ "browser.cdp.coordinate_click" ∷ "browser.cdp.type_text" ∷ "browser.cdp.press_key" ∷ [],
      r2,
    )
    ∷ ("browser.cdp.screenshot" ∷ "browser.cdp.compact_snapshot" ∷ [], r0)
    ∷ ("browser.cdp.workflow" ∷ [], r2)
    ∷ ("obs.recording.start" ∷ "obs.recording.stop" ∷ [], r3)
    ∷ ("discord.message.delete" ∷ "mail.send" ∷ "message.send" ∷ [], r3)
    ∷ (
      "video.render.cancel" ∷ "document.export" ∷ "presentation.export" ∷ "presentation.export_pdf"
          ∷ "design.export" ∷ "discord.message.react" ∷ [],
      r1,
    )
    ∷ (
      "discord.message.draft" ∷ "discord.message.search" ∷ "mail.search" ∷ "mail.read"
          ∷ "design.list" ∷ "design.read" ∷ "design.page.list" ∷ "design.element.inspect"
          ∷ "document.google.read" ∷ "presentation.google.read" ∷ "presentation.read"
          ∷ "video.project.list" ∷ "video.media.list" ∷ "video.timeline.list"
          ∷ "video.timeline.items.list" ∷ "video.render.preset.list" ∷ "video.render.status" ∷ [],
      r0,
    )
    ∷ []

abbrev pub classify_last : List (List String × Risk)
classify_last =
    (
      "browser.cdp.discovery" ∷ "browser.cdp.wait_for" ∷ "browser.cdp.accessibility_snapshot"
          ∷ "browser.cdp.reopen_closed_group" ∷ [],
      r0,
    )
    ∷ []

unfoldable pub classify_arms : List (List String × Risk) → String → Option Risk
classify_arms [] intent = none
classify_arms ((names, risk) ∷ arms) intent =
    let rest = classify_arms arms intent in if one_of names intent then some risk else rest

unfoldable pub classify_guarded : String → Risk
unfolding classify_arms is_first_party_adapter_intent
classify_guarded intent =
    if is_first_party_adapter_intent intent
    then r2
    else elim (classify_arms classify_last intent) [ some risk ↦ risk | none ↦ r2 ]

unfoldable pub classify : String → Risk
unfolding classify_arms classify_guarded
classify intent = elim (classify_arms classify_first intent) [
  | some risk ↦ risk
  | none ↦ classify_guarded intent
]

abbrev pub risk_or : Option Risk → Risk
risk_or none = r0
risk_or (some risk) = risk

unfoldable pub effective_risk : {V : Type 0} → OperationRequest V → Risk
unfolding classify
effective_risk request = risk_max (classify request.intent) (risk_or request.risk)
