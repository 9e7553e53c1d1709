-- ===== src/Cli/Tui.antt =====
-- cli/src/tui/mod.rs: what the full-screen client does on a key press and on an event of its
-- connection to the daemon. The rounds of `run_loop` and the drawing are not modelled.
pub mod Press
pub mod Bounds
pub mod Delete
use fez_meshcore_controller.Prelude.{
  Bool, List, Option, Text, [], codes, false, if◌then◌else◌, map_option, none, some, text_eq, true,
  unwrap_or, ◌++◌, ◌∷◌,
}
use fez_meshcore_controller.Core.Crypto.{Primitives}
use fez_meshcore_controller.Core.Config.{RepeaterStatus, managed, known, supervised}
use fez_meshcore_controller.Core.Mesh.{ContactDto}
use fez_meshcore_controller.Core.Mesh.Detail.{Outcome}
use fez_meshcore_controller.Core.Mesh.Events.{
  MeshEventKind, connected, contact_removed, new_contact, config_reloaded, telemetry_received,
  repeater_status_changed,
}
use fez_meshcore_controller.Core.Ipc.{
  MeshEvent, ClientMessage, request_snapshot, remove_contact, set_repeater_status,
  request_repeater_detail, ServerMessage, hello, snapshot_message, event_message, packet_log,
  packet_log_entry, error_message, telemetry_result, repeater_detail_category,
}
use fez_meshcore_controller.Cli.RepeaterFilter.{Display}
use fez_meshcore_controller.Cli.App.{
  App, apply_snapshot, selected_contact, push_event, set_packet_log, push_packet,
}
use fez_meshcore_controller.Cli.App.Detail.{
  open_repeater_detail_pending, apply_repeater_detail_category,
}

-- What a handler leaves, and the messages that it sends to the daemon.
pub record Effect : Type 0 where
  pub app : App
  pub sent : List ClientMessage

pub data UiEvent : Type 0 where
  daemon_connected daemon_disconnected : UiEvent
  server : ServerMessage → UiEvent

abbrev pub only : App → Effect
only app = record { app = app; sent = [] }

-- U+2026.
abbrev pub ellipsis : Text
ellipsis = 226 ∷ 128 ∷ 166 ∷ []

-- U+1F6F0, U+1F6E1 and U+1F5D1, each with U+FE0F, and U+1F4DF.
abbrev pub satellite : Text
satellite = 240 ∷ 159 ∷ 155 ∷ 176 ∷ 239 ∷ 184 ∷ 143 ∷ []

abbrev pub shield : Text
shield = 240 ∷ 159 ∷ 155 ∷ 161 ∷ 239 ∷ 184 ∷ 143 ∷ []

abbrev pub wastebasket : Text
wastebasket = 240 ∷ 159 ∷ 151 ∷ 145 ∷ 239 ∷ 184 ∷ 143 ∷ []

abbrev pub pager : Text
pager = 240 ∷ 159 ∷ 147 ∷ 159 ∷ []

abbrev pub no_selection : App → App
no_selection app = record app { last_status = some (codes "No repeater selected") }

abbrev pub same_status : Option RepeaterStatus → RepeaterStatus → Bool
same_status (some managed) managed = true
same_status (some known) known = true
same_status (some supervised) supervised = true
same_status current target = false

abbrev pub status_text : Text → Option RepeaterStatus → Text
status_text name (some managed) =
    satellite ++ (codes "  Marking " ++ (name ++ (codes " as managed" ++ ellipsis)))
status_text name (some known) =
    pager ++ (codes " Marking " ++ (name ++ (codes " as known" ++ ellipsis)))
status_text name (some supervised) =
    shield ++ (codes "  Marking " ++ (name ++ (codes " as supervised" ++ ellipsis)))
status_text name none = codes "Unmarking " ++ (name ++ ellipsis)

-- The kinds of event after which the client asks for a fresh snapshot.
unfoldable pub needs_fresh_snapshot : MeshEventKind → Bool
needs_fresh_snapshot connected = true
needs_fresh_snapshot (contact_removed name prefix) = true
needs_fresh_snapshot (new_contact name) = true
needs_fresh_snapshot (config_reloaded detail) = true
needs_fresh_snapshot (telemetry_received name summary) = true
needs_fresh_snapshot (repeater_status_changed name status) = true
needs_fresh_snapshot kind = false

module _ (p : Primitives) where
  unfoldable pub apply_server_message : App → ServerMessage → Effect
  unfolding apply_snapshot push_event set_packet_log push_packet apply_repeater_detail_category
      needs_fresh_snapshot
  apply_server_message app (snapshot_message snapshot) = only (apply_snapshot p app snapshot)
  apply_server_message app (event_message event) = record {
    app = push_event app event;
    sent = if needs_fresh_snapshot event.kind then request_snapshot ∷ [] else [];
  }
  apply_server_message app (packet_log backlog) = only (set_packet_log app backlog)
  apply_server_message app (packet_log_entry entry) = only (push_packet app entry)
  apply_server_message app (error_message message) =
      only (record app { last_status = some message })
  apply_server_message app (telemetry_result prefix telemetry) = only app
  apply_server_message app (repeater_detail_category prefix category) =
      only (apply_repeater_detail_category app prefix category)
  apply_server_message app (hello version) = only app

  unfoldable pub apply_ui_event : App → UiEvent → Effect
  unfolding apply_server_message
  apply_ui_event app daemon_connected = only (record app { daemon_connected = true })
  apply_ui_event app daemon_disconnected = only (record app { daemon_connected = false })
  apply_ui_event app (server message) = apply_server_message app message

-- The selected contact's deletion, which is armed when `armed` is its key prefix.
unfoldable pub delete_selected : App → Option (Text × Text) → ContactDto → Effect
unfolding text_eq
delete_selected app armed c =
    if unwrap_or (map_option (λ a. text_eq a.0 c.public_key_prefix_hex) armed) false
    then record {
      app = record app {
        last_status = some (wastebasket ++ (codes "  Removing " ++ (c.name ++ ellipsis)));
        pending_delete = none;
      };
      sent = remove_contact c.public_key_prefix_hex ∷ [];
    }
    else only (record app { pending_delete = some (c.public_key_prefix_hex, c.name) })

module _ (v : Display) where
  unfoldable pub set_repeater_status_key : App → RepeaterStatus → Effect
  unfolding selected_contact
  set_repeater_status_key app target = elim (selected_contact v app) [
    | none ↦ only (no_selection app)
    | some c ↦
        let status = if same_status c.repeater_status target then none else some target in
        record {
          app = record app { last_status = some (status_text c.name status) };
          sent = set_repeater_status c.public_key_prefix_hex c.name status ∷ [];
        }
  ]

  unfoldable pub confirm_or_arm_delete : App → Effect
  unfolding selected_contact delete_selected
  confirm_or_arm_delete app = elim (selected_contact v app) [
    | none ↦ only (no_selection (record app { pending_delete = none }))
    | some c ↦ delete_selected app app.pending_delete c
  ]

  unfoldable pub request_repeater_detail_key : App → Effect
  unfolding selected_contact open_repeater_detail_pending
  request_repeater_detail_key app = elim (selected_contact v app) [
    | none ↦ only (no_selection app)
    | some c ↦ record {
      app =
          open_repeater_detail_pending (record app { last_status = none }) c.public_key_prefix_hex
            c.name;
      sent = request_repeater_detail c.public_key_prefix_hex ∷ [];
    }
  ]
