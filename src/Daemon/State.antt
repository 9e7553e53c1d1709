-- ===== src/Daemon/State.antt =====
-- daemon/src/state.rs: the state that the mesh task and the server share, and its methods. A lock
-- is held for each method whole. What is broadcast is kept, the latest first.
pub mod PacketLog
pub mod Discovered
use fez_meshcore_controller.Prelude.{
  Bool, List, Option, Text, [], drop_last, false, if◌then◌else◌, leb, length, max, none, not, or,
  some, true, ℕ, ◌%◌, ◌+◌, ◌^◌, ◌||◌, ◌∷◌,
}
use fez_meshcore_controller.Prelude.Int.{ℤ, is_zero}
use fez_meshcore_controller.Prelude.Map.{HashMap, lookup, insert}
use fez_meshcore_controller.Core.Config.{Config, DaemonConfig, MqttBrokerConfig}
use fez_meshcore_controller.Core.Mesh.{
  DeviceInfoDto, NodeStatsDto, TelemetryDto, DiscoveredNode, PacketLogEntry,
}
use fez_meshcore_controller.Core.Mesh.Source.{MeshCoreEvent}
use fez_meshcore_controller.Core.Ipc.{default_snapshot, Snapshot, MeshEvent, MqttBrokerStatus}
use fez_meshcore_controller.Daemon.Command.{DaemonCommand}
use fez_meshcore_controller.Daemon.RepeaterDb.{Table, upsert, load_all}

-- A broker's worker task is the configuration that it runs with.
pub record AppState : Type 0 where
  pub snapshot : Snapshot
  pub events_sent : List MeshEvent
  pub commands_sent : List DaemonCommand
  pub config : Config
  pub discovered_repeaters : HashMap DiscoveredNode
  pub repeater_db : Table
  pub packet_log : List PacketLogEntry
  pub packet_log_capacity : ℕ
  pub packets_sent : List PacketLogEntry
  pub next_id : ℕ
  pub raw_events_sent : List MeshCoreEvent
  pub mqtt_broker_status : HashMap MqttBrokerStatus
  pub mqtt_broker_tasks : HashMap MqttBrokerConfig
  pub device_info : Option DeviceInfoDto
  pub node_stats : Option NodeStatsDto
  pub telemetry : HashMap TelemetryDto

-- `AppState::new`, with the table that is found at the database's path.
unfoldable pub new : Config → Table → AppState
new config table = record {
  snapshot = default_snapshot;
  events_sent = [];
  commands_sent = [];
  config = config;
  discovered_repeaters = load_all table;
  repeater_db = table;
  packet_log = [];
  packet_log_capacity = max config.daemon.packet_log_capacity 1;
  packets_sent = [];
  next_id = 1;
  raw_events_sent = [];
  mqtt_broker_status = [];
  mqtt_broker_tasks = [];
  device_info = none;
  node_stats = none;
  telemetry = [];
}

unfoldable pub broadcast_event : AppState → MeshEvent → AppState
broadcast_event s event = record s { events_sent = event ∷ s.events_sent }

unfoldable pub broadcast_raw_event : AppState → MeshCoreEvent → AppState
broadcast_raw_event s event = record s { raw_events_sent = event ∷ s.raw_events_sent }

unfoldable pub set_mqtt_broker_status : AppState → Text → MqttBrokerStatus → AppState
set_mqtt_broker_status s name status = record s {
  mqtt_broker_status = insert name status s.mqtt_broker_status;
}

unfoldable pub set_telemetry : AppState → Text → TelemetryDto → AppState
set_telemetry s public_key_prefix_hex telemetry = record s {
  telemetry = insert public_key_prefix_hex telemetry s.telemetry;
}

unfoldable pub set_device_info : AppState → Option DeviceInfoDto → AppState
set_device_info s info = record s { device_info = info }

unfoldable pub set_node_stats : AppState → NodeStatsDto → AppState
set_node_stats s stats = record s { node_stats = some stats }

-- `fetch_add` of an AtomicU64.
unfoldable pub next_packet_id : AppState → ℕ × AppState
next_packet_id s = (s.next_id, record s { next_id = (s.next_id + 1) % 2 ^ 64 })

unfoldable pub record_packet : AppState → PacketLogEntry → AppState
record_packet s entry =
    let kept =
      if leb s.packet_log_capacity (length s.packet_log)
      then drop_last s.packet_log
      else s.packet_log in
    record s { packet_log = entry ∷ kept; packets_sent = entry ∷ s.packets_sent }

-- An occupied entry, merged with a sighting.
unfoldable pub merge_node : DiscoveredNode → DiscoveredNode → DiscoveredNode
merge_node existing node =
    let seen = not (is_zero node.lat) || not (is_zero node.lon) in
    record {
      name = node.name;
      public_key_hex = node.public_key_hex;
      public_key_prefix_hex = existing.public_key_prefix_hex;
      is_repeater = node.is_repeater;
      adv_type = node.adv_type;
      lat = if seen then node.lat else existing.lat;
      lon = if seen then node.lon else existing.lon;
      last_seen_unix = node.last_seen_unix;
      last_snr = or node.last_snr existing.last_snr;
      last_rssi = or node.last_rssi existing.last_rssi;
      last_hop_count = or node.last_hop_count existing.last_hop_count;
    }

-- The entry of the map: what it becomes, and whether the node is new.
unfoldable pub entry_after : Option DiscoveredNode → DiscoveredNode → DiscoveredNode × Bool
entry_after none node = (node, true)
entry_after (some existing) node = (merge_node existing node, false)

-- `persisted` says whether the database took the write; a failure is only logged.
unfoldable pub upsert_discovered_node : AppState → DiscoveredNode → Bool → AppState × Bool
unfolding entry_after merge_node
upsert_discovered_node s node persisted =
    let db = if persisted then upsert s.repeater_db node else s.repeater_db in
    let after = entry_after (lookup node.public_key_prefix_hex s.discovered_repeaters) node in
    (
      record s {
        repeater_db = db;
        discovered_repeaters = insert node.public_key_prefix_hex after.0 s.discovered_repeaters;
      },
      after.1,
    )
