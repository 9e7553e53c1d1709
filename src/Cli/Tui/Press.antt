-- ===== src/Cli/Tui/Press.antt =====
-- What a key press does, and a round of the loop: `run_loop` of cli/src/tui/mod.rs.
use fez_meshcore_controller.Prelude.{
  Bool, List, [], false, if◌then◌else◌, is_some, none, not, true, ℕ, ◌==◌, ◌∷◌,
}
use fez_meshcore_controller.Core.Crypto.{Primitives}
use fez_meshcore_controller.Core.Config.{managed, known, supervised}
use fez_meshcore_controller.Core.Mesh.Detail.{Outcome}
use fez_meshcore_controller.Core.Ipc.{request_snapshot}
use fez_meshcore_controller.Cli.RepeaterFilter.{Display}
use fez_meshcore_controller.Cli.App.{
  App, dashboard, packet_page, select_next_contact, select_prev_contact, toggle_scroll_lock,
  selected_group, select_next_packet, select_prev_packet, open_packet_detail, close_packet_detail,
}
use fez_meshcore_controller.Cli.App.Detail.{
  close_repeater_detail, select_next_neighbour, select_prev_neighbour,
}
use fez_meshcore_controller.Cli.App.Filter.{
  open_repeater_filter, close_repeater_filter, select_next_filter_row, select_prev_filter_row,
  toggle_selected_filter_row,
}
use fez_meshcore_controller.Cli.Tui.{
  Effect, only, UiEvent, apply_ui_event, set_repeater_status_key, confirm_or_arm_delete,
  request_repeater_detail_key,
}

-- The key codes that the client tells apart.
pub data Key : Type 0 where
  f1 f2 f3 esc down up enter other_key : Key
  char : ℕ → Key

-- What a round of the loop waits for. A press carries what writing the preferences would give.
pub data Input : Type 0 where
  ui_event : UiEvent → Input
  press : Key → Outcome (Unit {0}) → Input

abbrev pub toggle_help : App → App
unfolding close_packet_detail
toggle_help app =
    if app.help_open
    then record app { help_open = false }
    else close_packet_detail (record app { help_open = true })

-- The first popup that is open is closed, and the client quits when there is none.
unfoldable pub press_esc : Outcome (Unit {0}) → App → App
unfolding close_repeater_filter close_packet_detail close_repeater_detail
press_esc saved app =
    if app.help_open
    then record app { help_open = false }
    else if app.repeater_filter_open
    then close_repeater_filter saved app
    else if is_some app.packet_detail
    then close_packet_detail app
    else if is_some app.repeater_detail
    then close_repeater_detail app
    else record app { should_quit = true }

unfoldable pub press_packet_page : App → Key → App
unfolding select_next_packet select_prev_packet toggle_scroll_lock selected_group open_packet_detail
    close_packet_detail
press_packet_page app down = if is_some app.packet_detail then app else select_next_packet app
press_packet_page app up = if is_some app.packet_detail then app else select_prev_packet app
press_packet_page app (char c) = if c == b'l' then toggle_scroll_lock app else app
press_packet_page app enter =
    if not (is_some (selected_group app))
    then app
    else if is_some app.packet_detail
    then close_packet_detail app
    else open_packet_detail app
press_packet_page app key = app

abbrev pub is_delete : Key → Bool
is_delete (char c) = c == b'd'
is_delete key = false

module _ (v : Display) where
  unfoldable pub press_filter : Outcome (Unit {0}) → App → Key → App
  unfolding select_next_filter_row select_prev_filter_row toggle_selected_filter_row
      close_repeater_filter
  press_filter saved app down = select_next_filter_row app
  press_filter saved app up = select_prev_filter_row app
  press_filter saved app enter = toggle_selected_filter_row v app
  press_filter saved app (char c) =
      if c == b' '
      then toggle_selected_filter_row v app
      else if c == b'f'
      then close_repeater_filter saved app
      else app
  press_filter saved app key = app

  unfoldable pub press_dashboard_char : App → ℕ → Effect
  unfolding set_repeater_status_key confirm_or_arm_delete open_repeater_filter
  press_dashboard_char app c =
      if c == b'r'
      then record { app = record app { last_status = none }; sent = request_snapshot ∷ [] }
      else if c == b'm'
      then set_repeater_status_key v app managed
      else if c == b'k'
      then set_repeater_status_key v app known
      else if c == b's'
      then set_repeater_status_key v app supervised
      else if c == b'd'
      then confirm_or_arm_delete v app
      else if c == b'f'
      then only (open_repeater_filter app)
      else only app

  unfoldable pub press_dashboard : App → Key → Effect
  unfolding select_next_neighbour select_prev_neighbour select_next_contact select_prev_contact
      press_dashboard_char request_repeater_detail_key
  press_dashboard app down =
      if is_some app.repeater_detail
      then only (select_next_neighbour app)
      else only (select_next_contact v app)
  press_dashboard app up =
      if is_some app.repeater_detail
      then only (select_prev_neighbour app)
      else only (select_prev_contact v app)
  press_dashboard app (char c) = press_dashboard_char app c
  press_dashboard app enter = request_repeater_detail_key v app
  press_dashboard app key = only app

  unfoldable pub press_page : App → Key → Effect
  unfolding press_dashboard press_packet_page
  press_page app key = elim app.page [
    | dashboard ↦ press_dashboard app key
    | packet_page ↦ only (press_packet_page app key)
  ]

  -- The keys that no popup's handler sees come first.
  unfoldable pub press_focused : Outcome (Unit {0}) → App → Key → Effect
  unfolding press_filter press_page
  press_focused saved app key =
      if app.help_open
      then only app
      else if app.repeater_filter_open
      then only (press_filter saved app key)
      else press_page app key

  unfoldable pub dispatch_key : Outcome (Unit {0}) → App → Key → Effect
  unfolding press_esc press_focused
  dispatch_key saved app f1 = only (toggle_help app)
  dispatch_key saved app f2 = only (record app { page = dashboard })
  dispatch_key saved app f3 = only (record app { page = packet_page })
  dispatch_key saved app esc = only (press_esc saved app)
  dispatch_key saved app (char c) =
      if c == b'q'
      then only (record app { should_quit = true })
      else press_focused saved app (char c)
  dispatch_key saved app key = press_focused saved app key

  unfoldable pub press_key : Outcome (Unit {0}) → App → Key → Effect
  unfolding dispatch_key
  press_key saved app key =
      dispatch_key saved (if is_delete key then app else record app { pending_delete = none }) key

  module _ (p : Primitives) where
    unfoldable pub round : App → Input → Effect
    unfolding apply_ui_event press_key
    round app (ui_event event) = apply_ui_event p app event
    round app (press key saved) = press_key saved app key

    -- The state after the inputs, of which the latest is the first.
    unfoldable pub state_after : App → List Input → App
    unfolding round
    state_after app [] = app
    state_after app (input ∷ past) = (round (state_after app past) input).app
