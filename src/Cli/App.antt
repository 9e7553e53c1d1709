-- ===== src/Cli/App.antt =====
-- cli/src/tui/app.rs: the state of the full-screen client, and what its tables show. The states of
-- ratatui's tables and lists are the rows that they have selected.
pub mod Detail
pub mod Filter
pub mod Selection
pub mod Lock
pub mod Streaming
use fez_meshcore_controller.Prelude.{
  Bool, List, Option, Text, [], drop_last, false, filter, filter_map, get_elem?, guard,
  if◌then◌else◌, is_some, leb, length, ltb, map_option, none, some, starts_with, suc, take,
  to_ascii_lowercase, unwrap_or, zero, ℕ, ◌+◌, ◌>>=◌, ◌>>◌, ◌∷◌,
}
use fez_meshcore_controller.Prelude.Int.{ℤ, sub_ℤ}
use fez_meshcore_controller.Core.Crypto.{Primitives}
use fez_meshcore_controller.Core.Hex.{Bytes}
use fez_meshcore_controller.Core.Ipc.{Snapshot, MeshEvent, default_snapshot}
use fez_meshcore_controller.Core.Mesh.{ContactDto, PacketLogEntry, is_repeater_or_room}
use fez_meshcore_controller.Core.Mesh.Detail.{RepeaterDetailDto}
use fez_meshcore_controller.Core.Region.{precompute_region_keys}
use fez_meshcore_controller.Core.Channel.{ChannelKey, precompute_channel_keys}
use fez_meshcore_controller.Cli.PacketGroup.{PacketGroup, group_packets}
use fez_meshcore_controller.Cli.RepeaterFilter.{
  Display, RepeaterFilter, default_filter, repeater_group, shows, sort_repeaters,
}

abbrev pub max_events : ℕ
max_events = 200

abbrev pub max_packets : ℕ
max_packets = 2000

pub data Page : Type 0 where
  dashboard packet_page : Page

pub record RepeaterDetailView : Type 0 where
  pub public_key_prefix_hex : Text
  pub name : Text
  pub detail : RepeaterDetailDto

pub record App : Type 0 where
  pub snapshot : Snapshot
  -- most recent first
  pub events : List MeshEvent
  pub daemon_connected : Bool
  pub should_quit : Bool
  pub last_status : Option Text
  pub contacts_state : Option ℕ
  -- prefix and name
  pub pending_delete : Option (Text × Text)
  pub page : Page
  -- most recent first
  pub packets : List PacketLogEntry
  pub packet_table_state : Option ℕ
  pub locked_view : Option (List PacketLogEntry)
  pub packet_detail : Option PacketGroup
  pub help_open : Bool
  pub repeater_detail : Option RepeaterDetailView
  pub neighbours_list_state : Option ℕ
  pub repeater_filter : RepeaterFilter
  pub repeater_filter_open : Bool
  pub repeater_filter_cursor : ℕ
  pub region_keys : List (Text × Bytes)
  pub channel_keys : List ChannelKey

-- The row after the selected one of a table of `len` rows, the first after the last.
unfoldable pub next_row : ℕ → Option ℕ → Option ℕ
next_row zero selected = selected
next_row (suc n) none = some 0
next_row (suc n) (some i) = if ltb (i + 1) (suc n) then some (i + 1) else some 0

unfoldable pub prev_row : ℕ → Option ℕ → Option ℕ
prev_row zero selected = selected
prev_row (suc n) none = some n
prev_row (suc n) (some zero) = some n
prev_row (suc n) (some (suc i)) = some i

unfoldable pub push_event : App → MeshEvent → App
push_event app event = record app {
  events =
      event ∷ (if leb max_events (length app.events) then drop_last app.events else app.events);
}

-- The frozen list while the scroll is locked.
unfoldable pub visible_packets : App → List PacketLogEntry
visible_packets app = unwrap_or app.locked_view app.packets

unfoldable pub packet_groups : App → List PacketGroup
unfolding visible_packets group_packets
packet_groups app = group_packets (visible_packets app)

unfoldable pub selected_group : App → Option PacketGroup
unfolding packet_groups
selected_group app = do index ← app.packet_table_state; get_elem? (packet_groups app) index

unfoldable pub set_packet_log : App → List PacketLogEntry → App
set_packet_log app backlog = record app { packets = take max_packets backlog }

unfoldable pub push_packet : App → PacketLogEntry → App
push_packet app entry = record app { packets = take max_packets (entry ∷ app.packets) }

unfoldable pub toggle_scroll_lock : App → App
toggle_scroll_lock app = record app {
  locked_view = if is_some app.locked_view then none else some app.packets;
}

-- `iter().take_while(…).count()`.
abbrev pub count_newer : ℕ → List PacketLogEntry → ℕ
count_newer id [] = 0
count_newer id (p ∷ packets) =
    let rest = count_newer id packets in if ltb id p.id then suc rest else 0

unfoldable pub new_packets_since_lock : App → ℕ
new_packets_since_lock app = elim app.locked_view [
  | none ↦ 0
  | some [] ↦ length app.packets
  | some (newest ∷ frozen) ↦ count_newer newest.id app.packets
]

unfoldable pub select_next_packet : App → App
unfolding packet_groups next_row
select_next_packet app = record app {
  packet_table_state = next_row (length (packet_groups app)) app.packet_table_state;
}

unfoldable pub select_prev_packet : App → App
unfolding packet_groups prev_row
select_prev_packet app = record app {
  packet_table_state = prev_row (length (packet_groups app)) app.packet_table_state;
}

unfoldable pub open_packet_detail : App → App
unfolding selected_group
open_packet_detail app = record app { packet_detail = selected_group app }

unfoldable pub close_packet_detail : App → App
close_packet_detail app = record app { packet_detail = none }

-- When the packet carries an advertisement of the key prefix, its time.
abbrev pub advert_of : Text → PacketLogEntry → Option ℤ
unfolding to_ascii_lowercase starts_with
advert_of prefix entry = do
  header ← entry.header
  adv ← header.advertisement
  guard (starts_with (to_ascii_lowercase adv.public_key_hex) prefix)
  some entry.at_unix

unfoldable pub contact_advert_interval_secs : List PacketLogEntry → ContactDto → Option ℤ
unfolding to_ascii_lowercase
contact_advert_interval_secs packets contact =
    elim (filter_map (advert_of (to_ascii_lowercase contact.public_key_prefix_hex)) packets) [
      | newest ∷ second ∷ older ↦ some (sub_ℤ newest second)
      | _ ↦ none
    ]

module _ (p : Primitives) where
  unfoldable pub new : App
  unfolding precompute_channel_keys
  new = record {
    snapshot = default_snapshot;
    events = [];
    daemon_connected = false;
    should_quit = false;
    last_status = none;
    contacts_state = none;
    pending_delete = none;
    page = dashboard;
    packets = [];
    packet_table_state = none;
    locked_view = none;
    packet_detail = none;
    help_open = false;
    repeater_detail = none;
    neighbours_list_state = none;
    repeater_filter = default_filter;
    repeater_filter_open = false;
    repeater_filter_cursor = 0;
    region_keys = [];
    channel_keys = precompute_channel_keys p [];
  }

  unfoldable pub apply_snapshot : App → Snapshot → App
  unfolding precompute_region_keys precompute_channel_keys
  apply_snapshot app snapshot = record app {
    region_keys = precompute_region_keys p snapshot.regions;
    channel_keys = precompute_channel_keys p snapshot.hashtag_channels;
    snapshot = snapshot;
  }

module _ (v : Display) where
  unfoldable pub sorted_contacts : App → List ContactDto
  unfolding is_repeater_or_room shows repeater_group sort_repeaters
  sorted_contacts app =
      sort_repeaters v
        (filter (λ c. shows app.repeater_filter (repeater_group c))
          (filter (λ c. is_repeater_or_room c.contact_type) app.snapshot.contacts))
        app.repeater_filter (map_option (λ s. (s.lat, s.lon)) app.snapshot.self_info)

  unfoldable pub selected_contact : App → Option ContactDto
  unfolding sorted_contacts
  selected_contact app = do index ← app.contacts_state; get_elem? (sorted_contacts app) index

  unfoldable pub select_next_contact : App → App
  unfolding sorted_contacts next_row
  select_next_contact app = record app {
    contacts_state = next_row (length (sorted_contacts app)) app.contacts_state;
  }

  unfoldable pub select_prev_contact : App → App
  unfolding sorted_contacts prev_row
  select_prev_contact app = record app {
    contacts_state = prev_row (length (sorted_contacts app)) app.contacts_state;
  }
