-- ===== src/Core/Ipc.antt =====
-- The messages between the daemon and its clients: core/src/ipc.rs.
use fez_meshcore_controller.Prelude.{Bool, List, Option, Text, [], false, none, ℕ}
use fez_meshcore_controller.Prelude.Int.{ℤ}
use fez_meshcore_controller.Core.Config.{RegionConfig, RepeaterStatus}
use fez_meshcore_controller.Core.Mesh.{
  SelfInfoDto, ContactDto, NodeStatsDto, PacketLogEntry, TelemetryDto,
}
use fez_meshcore_controller.Core.Mesh.Detail.{RepeaterDetailCategory}
use fez_meshcore_controller.Core.Mesh.Events.{MeshEventKind}

pub data MqttBrokerStatus : Type 0 where
  connecting connected disconnected : MqttBrokerStatus
  error : Text → MqttBrokerStatus

pub record MqttBrokerStatusDto : Type 0 where
  pub name : Text
  pub status : MqttBrokerStatus

pub record Snapshot : Type 0 where
  pub mesh_connected : Bool
  pub self_info : Option SelfInfoDto
  pub contacts : List ContactDto
  pub uptime_secs : ℕ
  pub generated_at_unix : ℤ
  pub regions : List RegionConfig
  pub hashtag_channels : List Text
  pub mqtt_brokers : List MqttBrokerStatusDto
  pub node_stats : Option NodeStatsDto

abbrev pub default_snapshot : Snapshot
default_snapshot = record {
  mesh_connected = false;
  self_info = none;
  contacts = [];
  uptime_secs = 0;
  generated_at_unix = ℤ.pos 0;
  regions = [];
  hashtag_channels = [];
  mqtt_brokers = [];
  node_stats = none;
}

pub record MeshEvent : Type 0 where
  pub at_unix : ℤ
  pub kind : MeshEventKind

abbrev pub protocol_version : ℕ
protocol_version = 3

pub data ClientMessage : Type 0 where
  request_snapshot : ClientMessage
  remove_contact request_telemetry request_repeater_detail : Text → ClientMessage
  -- public_key_prefix_hex, name, status
  set_repeater_status : Text → Text → Option RepeaterStatus → ClientMessage
  -- public_key_hex, name, managed
  add_repeater : Text → Text → Bool → ClientMessage

pub data ServerMessage : Type 0 where
  hello : ℕ → ServerMessage
  snapshot_message : Snapshot → ServerMessage
  event_message : MeshEvent → ServerMessage
  packet_log : List PacketLogEntry → ServerMessage
  packet_log_entry : PacketLogEntry → ServerMessage
  error_message : Text → ServerMessage
  -- public_key_prefix_hex, and what was fetched
  telemetry_result : Text → TelemetryDto → ServerMessage
  repeater_detail_category : Text → RepeaterDetailCategory → ServerMessage
