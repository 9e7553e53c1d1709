-- ===== src/Cli/Examples/Repeaters.antt =====
-- The theorems on the panel of repeaters and on the client's keys at concrete inputs.
use fez_meshcore_controller.Prelude.{
  List, Option, Text, [], arith, codes, false, length, none, refl, some, to_ascii_lowercase, true,
  ℕ, ◌++◌, ◌↔◌, ◌∷◌, ◌≡◌, ◌≢◌,
}
use mathlib.Core.List.{Perm}
use fez_meshcore_controller.Prelude.Int.{pos, negsuc}
use fez_meshcore_controller.Samples.{toy_primitives}
use fez_meshcore_controller.Core.Config.{RepeaterStatus, managed}
use fez_meshcore_controller.Core.Mesh.{ContactDto, PacketLogEntry}
use fez_meshcore_controller.Core.Mesh.Detail.{
  Outcome, ok, err, RepeaterDetailCategory, telemetry, status, pending,
}
use fez_meshcore_controller.Core.Mesh.Detail.Folding.{apply_all}
use fez_meshcore_controller.Core.Ipc.{Snapshot, default_snapshot, snapshot_message}
use fez_meshcore_controller.Cli.RepeaterFilter.{
  Display, RepeaterFilter, default_filter, by_distance, sort_repeaters,
}
use fez_meshcore_controller.Cli.RepeaterFilter.Order.{GivesNumbers}
use fez_meshcore_controller.Cli.RepeaterFilter.Placed.{AreOrdered, sort_repeaters_ordered}
use fez_meshcore_controller.Cli.Repeater.{trim, has_prefix, find_contact}
use fez_meshcore_controller.Cli.Repeater.Unique.{IsOnly, find_contact-IsOnly}
use fez_meshcore_controller.Cli.App.{App, new, sorted_contacts}
use fez_meshcore_controller.Cli.App.Detail.{open_repeater_detail_pending}
use fez_meshcore_controller.Cli.App.Streaming.{
  apply_updates, view_of, categories_for, apply_updates_own,
}
use fez_meshcore_controller.Cli.Tui.{server}
use fez_meshcore_controller.Cli.Tui.Press.{Input, ui_event, press, down, char, round, state_after}
use fez_meshcore_controller.Cli.Tui.Bounds.{IsBounded, state_after-IsBounded}
use fez_meshcore_controller.Cli.Tui.Delete.{removals}
use fez_meshcore_controller.Cli.Tui.Delete.Confirmed.{IsConfirmed, removal-IsConfirmed}

-- A display whose distances are all the same.
abbrev toy_display : Display
toy_display = record { to_lowercase = λ t. to_ascii_lowercase t; haversine_km = λ a b. 7 }

toy_display-GivesNumbers : GivesNumbers toy_display
unfolding GivesNumbers
toy_display-GivesNumbers a b = omega arith

abbrev contact : Text → Text → ℕ → Option RepeaterStatus → ContactDto
contact name prefix heard tier = record {
  name = name;
  public_key_prefix_hex = prefix;
  last_advert_unix = heard;
  lat = pos 48000000;
  lon = negsuc 1500000;
  registered = true;
  managed = false;
  repeater_status = tier;
  contact_type = 2;
  last_telemetry = none;
}

abbrev hill : ContactDto
hill = contact (codes "Hill") (codes "aabbccddeeff") 100 (some managed)

abbrev lake : ContactDto
lake = contact (codes "Lake") (codes "001122334455") 300 none

abbrev grouped : RepeaterFilter
grouped = record default_filter { group_by_type = true; sort = by_distance }

sort_repeaters_ordered_example :
    Perm
      (sort_repeaters toy_display (lake ∷ hill ∷ []) grouped (some (pos 47000000, pos 2000000)))
      (lake ∷ hill ∷ [])
    × AreOrdered toy_display grouped
        (some (pos 47000000, pos 2000000))
        (sort_repeaters toy_display (lake ∷ hill ∷ []) grouped (some (pos 47000000, pos 2000000)))
sort_repeaters_ordered_example =
    sort_repeaters_ordered toy_display grouped (some (pos 47000000, pos 2000000))
      toy_display-GivesNumbers (lake ∷ hill ∷ [])

abbrev two_repeaters : Snapshot
two_repeaters = record default_snapshot { contacts = hill ∷ lake ∷ [] }

-- White space around the argument is dropped: a space and a no-break space, and a thin space.
abbrev typed : Text
typed = 32 ∷ 194 ∷ 160 ∷ (codes "AAbb" ++ (226 ∷ 128 ∷ 137 ∷ []))

find_runs : find_contact two_repeaters typed ≡ ok hill
unfolding find_contact
find_runs = refl

find_contact-IsOnly_example : (find_contact two_repeaters typed ≡ ok hill) ↔ (
    (to_ascii_lowercase (trim typed) ≢ [])
    × IsOnly (has_prefix (to_ascii_lowercase (trim typed))) hill two_repeaters.contacts)
find_contact-IsOnly_example = find_contact-IsOnly two_repeaters typed hill

abbrev shown : App
shown = record (new toy_primitives) { snapshot = two_repeaters }

abbrev saved : Outcome (Unit {0})
saved = ok tt

two_rows : length (sorted_contacts toy_display shown) ≡ 2
unfolding sorted_contacts new
two_rows = refl

-- Latest first: the first row is selected, and its deletion armed.
abbrev presses : List Input
presses = press (char b'd') saved ∷ press down saved ∷ []

state_after-IsBounded_example : IsBounded (
    state_after toy_display toy_primitives
      (record (new toy_primitives) { repeater_filter = grouped })
      (press (char b'f') saved ∷ ui_event (server (snapshot_message two_repeaters)) ∷ []))
state_after-IsBounded_example =
    state_after-IsBounded toy_display toy_primitives grouped
      (press (char b'f') saved ∷ ui_event (server (snapshot_message two_repeaters)) ∷ [])

nothing_armed : shown.pending_delete ≡ none
unfolding new
nothing_armed = refl

removal-IsConfirmed_example :
    IsConfirmed toy_display toy_primitives shown presses (press (char b'd') saved) (
      removals
        (round toy_display toy_primitives
          (state_after toy_display toy_primitives shown presses)
          (press (char b'd') saved)).sent)
removal-IsConfirmed_example =
    removal-IsConfirmed toy_display toy_primitives shown presses (press (char b'd') saved)
      nothing_armed

-- The confirmed removal, run.
removal_runs :
    removals
      (round toy_display toy_primitives
        (state_after toy_display toy_primitives shown presses)
        (press (char b'd') saved)).sent
    ≡ codes "001122334455" ∷ []
unfolding round state_after removals new
removal_runs = refl

abbrev updates : List (Text × RepeaterDetailCategory)
updates =
    (codes "001122334455", status (err (codes "timeout")))
    ∷ (codes "aabbccddeeff", telemetry (ok (record { fetched_at_unix = pos 9; readings = [] })))
    ∷ []

apply_updates_own_example :
    (apply_updates
      (open_repeater_detail_pending shown (codes "aabbccddeeff") (codes "Hill"))
      updates).repeater_detail
    ≡ some (
        view_of
          (codes "aabbccddeeff")
          (codes "Hill")
          (apply_all pending (categories_for (codes "aabbccddeeff") updates)))
apply_updates_own_example = apply_updates_own shown (codes "aabbccddeeff") (codes "Hill") updates

abbrev packet : ℕ → PacketLogEntry
packet id = record {
  id = id;
  at_unix = pos id;
  snr = pos 0;
  rssi = negsuc 89;
  header = none;
  payload_hex = codes "07";
  payload_len = 1;
}

abbrev listening : App
listening = record shown { packets = packet 1 ∷ [] }
