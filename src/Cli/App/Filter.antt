-- ===== src/Cli/App/Filter.antt =====
-- The popup that filters and sorts the repeaters: cli/src/tui/app.rs.
use fez_meshcore_controller.Prelude.{
  Text, [], codes, false, if◌then◌else◌, is_empty, none, not, some, true, ℕ, ◌%◌, ◌++◌, ◌+◌, ◌-◌,
  ◌==◌, ◌∷◌,
}
use fez_meshcore_controller.Core.Mesh.Detail.{Outcome, ok, err}
use fez_meshcore_controller.Cli.App.{App, sorted_contacts}
use fez_meshcore_controller.Cli.RepeaterFilter.{
  Display, RepeaterFilter, last_heard, by_name, by_distance,
}

abbrev pub repeater_filter_row_count : ℕ
repeater_filter_row_count = 8

unfoldable pub open_repeater_filter : App → App
open_repeater_filter app = record app { repeater_detail = none; repeater_filter_open = true }

-- U+26A0 U+FE0F.
abbrev pub warning_sign : Text
warning_sign = 226 ∷ 154 ∷ 160 ∷ 239 ∷ 184 ∷ 143 ∷ []

-- `saved` is what writing the preferences gave.
unfoldable pub close_repeater_filter : Outcome (Unit {0}) → App → App
close_repeater_filter saved app = elim saved [
  | ok u ↦ record app { repeater_filter_open = false }
  | err reason ↦ record app {
    repeater_filter_open = false;
    last_status =
        some (warning_sign ++ codes "  failed to save repeater filter settings: " ++ reason);
  }
]

unfoldable pub select_next_filter_row : App → App
select_next_filter_row app = record app {
  repeater_filter_cursor = (app.repeater_filter_cursor + 1) % repeater_filter_row_count;
}

unfoldable pub select_prev_filter_row : App → App
select_prev_filter_row app = record app {
  repeater_filter_cursor =
      if app.repeater_filter_cursor == 0
      then repeater_filter_row_count - 1
      else app.repeater_filter_cursor - 1;
}

unfoldable pub toggle_row : ℕ → RepeaterFilter → RepeaterFilter
toggle_row n f =
    if n == 0
    then record f { show_managed = not f.show_managed }
    else if n == 1
    then record f { show_supervised = not f.show_supervised }
    else if n == 2
    then record f { show_known = not f.show_known }
    else if n == 3
    then record f { show_discovered = not f.show_discovered }
    else if n == 4
    then record f { sort = last_heard }
    else if n == 5
    then record f { sort = by_name }
    else if n == 6
    then record f { sort = by_distance }
    else if n == 7
    then record f { group_by_type = not f.group_by_type }
    else f

unfoldable pub toggle_selected_filter_row : Display → App → App
unfolding toggle_row sorted_contacts
toggle_selected_filter_row v app =
    let toggled = record app {
      repeater_filter = toggle_row app.repeater_filter_cursor app.repeater_filter;
    } in
    record toggled {
      contacts_state = if is_empty (sorted_contacts v toggled) then none else some 0;
    }
