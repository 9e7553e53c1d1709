-- ===== src/Cli/Tui/Bounds.antt =====
-- That what the client keeps is bounded, whatever the daemon sends and whichever keys are pressed.
use fez_meshcore_controller.Prelude.{
  Bool-cases, List, Option, Text, [], arith, drop_last, inl, inr, length, length-take, none, refl,
  some, ℕ, ◌-◌, ◌<◌, ◌∷◌, ◌≡◌, ◌≤◌,
}
use fez_meshcore_controller.Core.Crypto.{Primitives}
use fez_meshcore_controller.Core.Config.{RepeaterStatus, managed, known, supervised}
use fez_meshcore_controller.Core.Mesh.{PacketLogEntry}
use fez_meshcore_controller.Core.Mesh.Detail.{Outcome, ok, err, RepeaterDetailCategory}
use fez_meshcore_controller.Core.Ipc.{
  MeshEvent, ServerMessage, hello, snapshot_message, event_message, packet_log, packet_log_entry,
  error_message, telemetry_result, repeater_detail_category,
}
use fez_meshcore_controller.Cli.RepeaterFilter.{Display, RepeaterFilter}
use fez_meshcore_controller.Cli.App.{
  App, max_events, max_packets, new, apply_snapshot, push_event, set_packet_log, push_packet,
  toggle_scroll_lock,
}
use fez_meshcore_controller.Cli.App.Detail.{
  apply_repeater_detail_category, open_repeater_detail_pending,
}
use fez_meshcore_controller.Cli.App.Filter.{repeater_filter_row_count, close_repeater_filter}
use fez_meshcore_controller.Cli.Tui.{
  UiEvent, daemon_connected, daemon_disconnected, server, apply_server_message, apply_ui_event,
  set_repeater_status_key, confirm_or_arm_delete, delete_selected, request_repeater_detail_key,
}
use fez_meshcore_controller.Cli.Tui.Press.{
  Key, f1, f2, f3, esc, down, up, enter, other_key, char, Input, ui_event, press, press_esc,
  press_filter, press_dashboard_char, press_dashboard, press_packet_page, press_page, press_focused,
  dispatch_key, press_key, is_delete, round, state_after,
}

abbrev locked_length : Option (List PacketLogEntry) → ℕ
locked_length none = 0
locked_length (some frozen) = length frozen

-- At most 200 events and 2,000 packets are kept, live and frozen, and the focused row of the filter's popup
-- is one of its eight.
unfoldable pub IsBounded : App → Type 0
IsBounded app =
    (length app.events ≤ max_events)
    × (length app.packets ≤ max_packets)
    × (locked_length app.locked_view ≤ max_packets)
    × (app.repeater_filter_cursor < repeater_filter_row_count)

length-drop_last : {A : Type 0} (xs : List A) → length (drop_last xs) ≡ length xs - 1
length-drop_last [] = refl
length-drop_last (x ∷ []) = refl
length-drop_last (x ∷ y ∷ xs) = ground (arith, length-drop_last (y ∷ xs))

push_event-IsBounded :
    (app : App) (event : MeshEvent) → IsBounded app → IsBounded (push_event app event)
unfolding IsBounded push_event
push_event-IsBounded app event b = ground (arith, length-drop_last app.events)

apply_detail-IsBounded :
    (app : App) (prefix : Text) (category : RepeaterDetailCategory)
    → IsBounded app
    → IsBounded (apply_repeater_detail_category app prefix category)
unfolding IsBounded apply_repeater_detail_category
apply_detail-IsBounded app prefix category b = ground (arith, b)

module _ (p : Primitives) where
  server-IsBounded :
      (app : App) (message : ServerMessage)
      → IsBounded app
      → IsBounded (apply_server_message p app message).app
  unfolding IsBounded apply_server_message apply_snapshot set_packet_log push_packet
  server-IsBounded app (hello version) b = b
  server-IsBounded app (snapshot_message snapshot) b = b
  server-IsBounded app (event_message event) b = push_event-IsBounded app event b
  server-IsBounded app (packet_log backlog) b = ground (arith, b, length-take max_packets backlog)
  server-IsBounded app (packet_log_entry entry) b =
      ground (arith, b, length-take max_packets (entry ∷ app.packets))
  server-IsBounded app (error_message message) b = b
  server-IsBounded app (telemetry_result prefix telemetry) b = b
  server-IsBounded app (repeater_detail_category prefix category) b =
      apply_detail-IsBounded app prefix category b

  event-IsBounded :
      (app : App) (event : UiEvent) → IsBounded app → IsBounded (apply_ui_event p app event).app
  unfolding IsBounded apply_ui_event
  event-IsBounded app daemon_connected b = b
  event-IsBounded app daemon_disconnected b = b
  event-IsBounded app (server message) b = server-IsBounded app message b

close_repeater_filter-IsBounded :
    (saved : Outcome (Unit {0})) (app : App)
    → IsBounded app
    → IsBounded (close_repeater_filter saved app)
unfolding IsBounded close_repeater_filter
close_repeater_filter-IsBounded (ok u) app b = b
close_repeater_filter-IsBounded (err reason) app b = b

press_esc-IsBounded :
    (saved : Outcome (Unit {0})) (app : App) → IsBounded app → IsBounded (press_esc saved app)
unfolding press_esc IsBounded
press_esc-IsBounded saved app b = ground (arith, close_repeater_filter-IsBounded saved app b)

module _ (v : Display) where
  press_filter-IsBounded :
      (saved : Outcome (Unit {0})) (app : App) (key : Key)
      → IsBounded app
      → IsBounded (press_filter v saved app key)
  unfolding press_filter IsBounded
  press_filter-IsBounded saved app key b =
      ground (arith, close_repeater_filter-IsBounded saved app b)

  delete-IsBounded : (app : App) → IsBounded app → IsBounded (confirm_or_arm_delete v app).app
  unfolding IsBounded confirm_or_arm_delete delete_selected
  delete-IsBounded app b = ground (arith, b)

  set_status-IsBounded :
      (app : App) (target : RepeaterStatus)
      → IsBounded app
      → IsBounded (set_repeater_status_key v app target).app
  unfolding IsBounded set_repeater_status_key
  set_status-IsBounded app target b = ground (arith, b)

  press_char-IsBounded :
      (app : App) (c : ℕ) → IsBounded app → IsBounded (press_dashboard_char v app c).app
  unfolding press_dashboard_char IsBounded
  press_char-IsBounded app c b = ground (
    arith,
    delete-IsBounded app b,
    set_status-IsBounded app managed b,
    set_status-IsBounded app known b,
    set_status-IsBounded app supervised b,
  )

  press_dashboard-IsBounded :
      (app : App) (key : Key) → IsBounded app → IsBounded (press_dashboard v app key).app
  unfolding press_dashboard IsBounded request_repeater_detail_key open_repeater_detail_pending
  press_dashboard-IsBounded app (char c) b = press_char-IsBounded app c b
  press_dashboard-IsBounded app f1 b = b
  press_dashboard-IsBounded app f2 b = b
  press_dashboard-IsBounded app f3 b = b
  press_dashboard-IsBounded app esc b = b
  press_dashboard-IsBounded app down b = ground (arith, b)
  press_dashboard-IsBounded app up b = ground (arith, b)
  press_dashboard-IsBounded app enter b = ground (arith, b)
  press_dashboard-IsBounded app other_key b = b

  press_packet_page-IsBounded :
      (app : App) (key : Key) → IsBounded app → IsBounded (press_packet_page app key)
  unfolding press_packet_page IsBounded toggle_scroll_lock
  press_packet_page-IsBounded app key b = ground (arith, b)

  press_page-IsBounded :
      (app : App) (key : Key) → IsBounded app → IsBounded (press_page v app key).app
  unfolding press_page
  press_page-IsBounded app key b =
      ground (arith, press_dashboard-IsBounded app key b, press_packet_page-IsBounded app key b)

  press_focused-IsBounded :
      (saved : Outcome (Unit {0})) (app : App) (key : Key)
      → IsBounded app
      → IsBounded (press_focused v saved app key).app
  unfolding press_focused
  press_focused-IsBounded saved app key b =
      ground (arith, b, press_filter-IsBounded saved app key b, press_page-IsBounded app key b)

  dispatch_key-IsBounded :
      (saved : Outcome (Unit {0})) (app : App) (key : Key)
      → IsBounded app
      → IsBounded (dispatch_key v saved app key).app
  unfolding dispatch_key IsBounded
  dispatch_key-IsBounded saved app f1 b = ground (arith, b)
  dispatch_key-IsBounded saved app f2 b = b
  dispatch_key-IsBounded saved app f3 b = b
  dispatch_key-IsBounded saved app esc b = press_esc-IsBounded saved app b
  dispatch_key-IsBounded saved app down b = press_focused-IsBounded saved app down b
  dispatch_key-IsBounded saved app up b = press_focused-IsBounded saved app up b
  dispatch_key-IsBounded saved app enter b = press_focused-IsBounded saved app enter b
  dispatch_key-IsBounded saved app other_key b = press_focused-IsBounded saved app other_key b
  dispatch_key-IsBounded saved app (char c) b =
      ground (arith, b, press_focused-IsBounded saved app (char c) b)

  press_key-IsBounded :
      (saved : Outcome (Unit {0})) (app : App) (key : Key)
      → IsBounded app
      → IsBounded (press_key v saved app key).app
  unfolding press_key IsBounded
  press_key-IsBounded saved app key b = elim (Bool-cases (is_delete key)) [
    | inl e ↦ rw (e) (dispatch_key-IsBounded saved app key b)
    | inr e ↦ rw (e) (dispatch_key-IsBounded saved (record app { pending_delete = none }) key b)
  ]

  module _ (p : Primitives) where
    round-IsBounded :
        (app : App) (input : Input) → IsBounded app → IsBounded (round v p app input).app
    unfolding round
    round-IsBounded app (ui_event event) b = event-IsBounded p app event b
    round-IsBounded app (press key saved) b = press_key-IsBounded saved app key b

    -- Whatever the daemon sends, in whatever order, and whichever keys are pressed, the client,
    -- started with the preferences that it loaded, keeps at most 200 events and 2,000 packets,
    -- also in the view that the scroll lock freezes, and focuses one of the eight rows of the
    -- filter's popup.
    pub state_after-IsBounded :
        (loaded : RepeaterFilter) (inputs : List Input)
        → IsBounded (state_after v p (record (new p) { repeater_filter = loaded }) inputs)
    unfolding state_after IsBounded new
    state_after-IsBounded loaded [] = ground arith
    state_after-IsBounded loaded (input ∷ past) =
        round-IsBounded (state_after v p (record (new p) { repeater_filter = loaded }) past) input
          (state_after-IsBounded loaded past)
