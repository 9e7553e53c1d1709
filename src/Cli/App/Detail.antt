-- ===== src/Cli/App/Detail.antt =====
-- The popup of a repeater's detail: cli/src/tui/app.rs.
use fez_meshcore_controller.Prelude.{Text, if◌then◌else◌, length, ltb, none, not, some, text_eq, ℕ}
use fez_meshcore_controller.Core.Mesh.Detail.{RepeaterDetailCategory, pending, apply_category}
use fez_meshcore_controller.Cli.App.{App, RepeaterDetailView, next_row, prev_row}

unfoldable pub open_repeater_detail_pending : App → Text → Text → App
open_repeater_detail_pending app prefix name = record app {
  repeater_detail = some (record { public_key_prefix_hex = prefix; name = name; detail = pending });
  neighbours_list_state = none;
}

abbrev pub view_neighbours : RepeaterDetailView → ℕ
view_neighbours view = elim view.detail.neighbours [ none ↦ 0 | some n ↦ length n.neighbours ]

-- An update for another contact than the popup's is dropped.
unfoldable pub apply_repeater_detail_category : App → Text → RepeaterDetailCategory → App
unfolding apply_category text_eq
apply_repeater_detail_category app prefix category = elim app.repeater_detail [
  | none ↦ app
  | some view ↦
      if not (text_eq view.public_key_prefix_hex prefix)
      then app
      else let view' = record view { detail = apply_category view.detail category } in
        record app {
          repeater_detail = some view';
          neighbours_list_state =
              if ltb 0 (view_neighbours view') then some 0 else app.neighbours_list_state;
        }
]

unfoldable pub close_repeater_detail : App → App
close_repeater_detail app = record app { repeater_detail = none }

unfoldable pub neighbour_count : App → ℕ
neighbour_count app = elim app.repeater_detail [ none ↦ 0 | some view ↦ view_neighbours view ]

unfoldable pub select_next_neighbour : App → App
unfolding neighbour_count next_row
select_next_neighbour app = record app {
  neighbours_list_state = next_row (neighbour_count app) app.neighbours_list_state;
}

unfoldable pub select_prev_neighbour : App → App
unfolding neighbour_count prev_row
select_prev_neighbour app = record app {
  neighbours_list_state = prev_row (neighbour_count app) app.neighbours_list_state;
}
