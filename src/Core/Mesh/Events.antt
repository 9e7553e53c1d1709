-- ===== src/Core/Mesh/Events.antt =====
-- `MeshEventKind` and `map_event` of core/src/mesh.rs.
use fez_meshcore_controller.Prelude.{Option, Text, none, some, ℕ}
use fez_meshcore_controller.Prelude.Int.{ℤ}
use fez_meshcore_controller.Core.Hex.{hex_encode}
use fez_meshcore_controller.Core.Config.{RepeaterStatus}
use fez_meshcore_controller.Core.Mesh.Source.{Names, EventPayload, EventType, MeshCoreEvent}

pub data MeshEventKind : Type 0 where
  connected disconnected message_sent : MeshEventKind
  -- name, prefix_hex, lat, lon
  advertisement : Text → Text → ℤ → ℤ → MeshEventKind
  new_contact : Text → MeshEventKind
  -- from_prefix_hex, hops, text
  contact_message : Text → ℕ → Text → MeshEventKind
  -- channel, hops, text
  channel_message : ℕ → ℕ → Text → MeshEventKind
  -- prefix_hex, hops, path_hex
  path_update : Text → ℤ → Text → MeshEventKind
  ack : Text → MeshEventKind
  managed_repeater_declared : Text → MeshEventKind
  -- name, status
  repeater_status_changed : Text → Option RepeaterStatus → MeshEventKind
  observer_node_config_enforced : Text → MeshEventKind
  -- name, prefix_hex
  repeater_heard contact_removed : Text → Text → MeshEventKind
  config_reloaded : Text → MeshEventKind
  -- name, summary
  telemetry_received : Text → Text → MeshEventKind
  other : Text → MeshEventKind

kind_of : Names → EventType → EventPayload → Option MeshEventKind
kind_of names EventType.connected payload = some connected
kind_of names EventType.disconnected payload = some disconnected
kind_of names EventType.advertised (EventPayload.advertisement prefix name lat lon) =
    some (advertisement name (hex_encode prefix) lat lon)
kind_of names EventType.new_contact (EventPayload.contact c) = some (new_contact c.adv_name)
kind_of names EventType.contact_msg_recv (EventPayload.contact_message msg) =
    some (contact_message (hex_encode msg.sender_prefix) msg.path_len msg.text)
kind_of names EventType.channel_msg_recv (EventPayload.channel_message msg) =
    some (channel_message msg.channel_idx msg.path_len msg.text)
kind_of names EventType.msg_sent payload = some message_sent
kind_of names EventType.path_updated (EventPayload.path_update prefix path_len path) =
    some (path_update (hex_encode prefix) path_len (hex_encode path))
kind_of names EventType.acked (EventPayload.ack tag) = some (ack (hex_encode tag))
kind_of names EventType.ok payload = none
kind_of names EventType.next_contact payload = none
kind_of names EventType.logged payload = none
kind_of names t payload = some (other (names.event_name t))

-- The match on the type and the payload; `Ok`, `NextContact` and `LogData` carry nothing to show.
unfoldable pub map_event : Names → MeshCoreEvent → Option MeshEventKind
unfolding kind_of
map_event names event = kind_of names event.event_type event.payload
