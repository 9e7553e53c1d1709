-- ===== src/Cli/Tui/Delete.antt =====
-- That a contact is removed only on a confirmation: the handlers that neither arm nor confirm.
pub mod Confirmed
use fez_meshcore_controller.Prelude.{
  List, Text, [], arith, false, none, refl, ℕ, ◌==◌, ◌∙◌, ◌∷◌, ◌≡◌,
}
use fez_meshcore_controller.Core.Crypto.{Primitives}
use fez_meshcore_controller.Core.Config.{RepeaterStatus, managed, known, supervised}
use fez_meshcore_controller.Core.Mesh.Detail.{Outcome, ok, err}
use fez_meshcore_controller.Core.Ipc.{
  ClientMessage, remove_contact, request_snapshot, request_telemetry, request_repeater_detail,
  set_repeater_status, add_repeater, ServerMessage, hello, snapshot_message, event_message,
  packet_log, packet_log_entry, error_message, telemetry_result, repeater_detail_category,
}
use fez_meshcore_controller.Cli.RepeaterFilter.{Display}
use fez_meshcore_controller.Cli.App.{
  App, Page, dashboard, packet_page, apply_snapshot, push_event, set_packet_log, push_packet,
}
use fez_meshcore_controller.Cli.App.Detail.{
  apply_repeater_detail_category, open_repeater_detail_pending,
}
use fez_meshcore_controller.Cli.App.Filter.{close_repeater_filter}
use fez_meshcore_controller.Cli.Tui.{
  Effect, UiEvent, daemon_connected, daemon_disconnected, server, apply_server_message,
  apply_ui_event, set_repeater_status_key, confirm_or_arm_delete, delete_selected,
  request_repeater_detail_key,
}
use fez_meshcore_controller.Cli.Tui.Press.{
  Key, f1, f2, f3, esc, down, up, enter, other_key, char, press_esc, press_filter,
  press_dashboard_char, press_dashboard, press_packet_page, press_page, press_focused, dispatch_key,
  press_key, is_delete,
}

-- The key prefixes that the messages ask the daemon to remove.
unfoldable pub removals : List ClientMessage → List Text
removals [] = []
removals (remove_contact prefix ∷ sent) = prefix ∷ removals sent
removals (request_snapshot ∷ sent) = removals sent
removals (request_telemetry prefix ∷ sent) = removals sent
removals (request_repeater_detail prefix ∷ sent) = removals sent
removals (set_repeater_status prefix name status ∷ sent) = removals sent
removals (add_repeater key name is_managed ∷ sent) = removals sent

-- The parts of the state that decide what a `d` does.
abbrev pub IsOnTable : App → Type 0
IsOnTable app =
    (app.help_open ≡ false) × (app.repeater_filter_open ≡ false) × (app.page ≡ dashboard)

abbrev Keeps : App → App → Type 0
Keeps app app' =
    (app'.pending_delete ≡ app.pending_delete)
    × (app'.help_open ≡ app.help_open)
    × (app'.repeater_filter_open ≡ app.repeater_filter_open)
    × (app'.page ≡ app.page)

module _ (p : Primitives) where
  server-Keeps :
      (app : App) (message : ServerMessage)
      → Keeps app (apply_server_message p app message).app
        × (removals (apply_server_message p app message).sent ≡ [])
  unfolding removals apply_server_message apply_snapshot push_event set_packet_log push_packet
      apply_repeater_detail_category
  server-Keeps app (hello version) = ground arith
  server-Keeps app (snapshot_message snapshot) = ground arith
  server-Keeps app (event_message event) = ground arith
  server-Keeps app (packet_log backlog) = ground arith
  server-Keeps app (packet_log_entry entry) = ground arith
  server-Keeps app (error_message message) = ground arith
  server-Keeps app (telemetry_result prefix telemetry) = ground arith
  server-Keeps app (repeater_detail_category prefix category) = ground arith

  pub event-Keeps :
      (app : App) (event : UiEvent)
      → Keeps app (apply_ui_event p app event).app
        × (removals (apply_ui_event p app event).sent ≡ [])
  unfolding removals apply_ui_event
  event-Keeps app daemon_connected = ground arith
  event-Keeps app daemon_disconnected = ground arith
  event-Keeps app (server message) = server-Keeps app message

-- Nothing is armed, and nothing is asked to be removed.
abbrev pub IsQuiet : Effect → Type 0
IsQuiet e = (e.app.pending_delete ≡ none) × (removals e.sent ≡ [])

close-pending :
    (saved : Outcome (Unit {0})) (app : App)
    → (close_repeater_filter saved app).pending_delete ≡ app.pending_delete
unfolding close_repeater_filter
close-pending saved app = ground arith

press_esc-pending :
    (saved : Outcome (Unit {0})) (app : App)
    → (press_esc saved app).pending_delete ≡ app.pending_delete
unfolding press_esc
press_esc-pending saved app = ground (arith, close-pending saved app)

press_packet_page-pending :
    (app : App) (key : Key) → (press_packet_page app key).pending_delete ≡ app.pending_delete
unfolding press_packet_page
press_packet_page-pending app key = ground arith

module _ (v : Display) where
  pub press_filter-pending :
      (saved : Outcome (Unit {0})) (app : App) (key : Key)
      → (press_filter v saved app key).pending_delete ≡ app.pending_delete
  unfolding press_filter
  press_filter-pending saved app key = ground (arith, close-pending saved app)

  set_status-IsQuiet :
      (app : App) (target : RepeaterStatus)
      → app.pending_delete ≡ none
      → IsQuiet (set_repeater_status_key v app target)
  unfolding set_repeater_status_key removals
  set_status-IsQuiet app target h = ground arith

  press_char-IsQuiet :
      (app : App) (c : ℕ)
      → app.pending_delete ≡ none
      → (c == b'd') ≡ false
      → IsQuiet (press_dashboard_char v app c)
  unfolding press_dashboard_char removals
  press_char-IsQuiet app c h n = ground (
    arith,
    set_status-IsQuiet app managed h,
    set_status-IsQuiet app known h,
    set_status-IsQuiet app supervised h,
  )

  press_dashboard-IsQuiet :
      (app : App) (key : Key)
      → app.pending_delete ≡ none
      → is_delete key ≡ false
      → IsQuiet (press_dashboard v app key)
  unfolding press_dashboard removals request_repeater_detail_key open_repeater_detail_pending
  press_dashboard-IsQuiet app (char c) h n = press_char-IsQuiet app c h n
  press_dashboard-IsQuiet app down h n = ground arith
  press_dashboard-IsQuiet app up h n = ground arith
  press_dashboard-IsQuiet app enter h n = ground arith
  press_dashboard-IsQuiet app f1 h n = (h, refl)
  press_dashboard-IsQuiet app f2 h n = (h, refl)
  press_dashboard-IsQuiet app f3 h n = (h, refl)
  press_dashboard-IsQuiet app esc h n = (h, refl)
  press_dashboard-IsQuiet app other_key h n = (h, refl)

  press_focused-IsQuiet :
      (saved : Outcome (Unit {0})) (app : App) (key : Key)
      → app.pending_delete ≡ none
      → is_delete key ≡ false
      → IsQuiet (press_focused v saved app key)
  unfolding press_focused press_page removals
  press_focused-IsQuiet saved app key h n = ground (
    arith,
    press_filter-pending saved app key,
    press_dashboard-IsQuiet app key h n,
    press_packet_page-pending app key,
  )

  dispatch_key-IsQuiet :
      (saved : Outcome (Unit {0})) (app : App) (key : Key)
      → app.pending_delete ≡ none
      → is_delete key ≡ false
      → IsQuiet (dispatch_key v saved app key)
  unfolding dispatch_key removals
  dispatch_key-IsQuiet saved app f1 h n = ground arith
  dispatch_key-IsQuiet saved app f2 h n = (h, refl)
  dispatch_key-IsQuiet saved app f3 h n = (h, refl)
  dispatch_key-IsQuiet saved app esc h n = (press_esc-pending saved app ∙ h, refl)
  dispatch_key-IsQuiet saved app down h n = press_focused-IsQuiet saved app down h n
  dispatch_key-IsQuiet saved app up h n = press_focused-IsQuiet saved app up h n
  dispatch_key-IsQuiet saved app enter h n = press_focused-IsQuiet saved app enter h n
  dispatch_key-IsQuiet saved app other_key h n = press_focused-IsQuiet saved app other_key h n
  dispatch_key-IsQuiet saved app (char c) h n =
      ground (arith, press_focused-IsQuiet saved app (char c) h n)

  pub press_key-IsQuiet :
      (saved : Outcome (Unit {0})) (app : App) (key : Key)
      → is_delete key ≡ false
      → IsQuiet (press_key v saved app key)
  unfolding press_key
  press_key-IsQuiet saved app key n =
      rw (n) (dispatch_key-IsQuiet saved (record app { pending_delete = none }) key refl n)
