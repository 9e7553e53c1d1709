-- ===== src/Core/Mesh/Source.antt =====
-- The part of the crate meshcore-rs that core/src/mesh.rs and daemon/src/mqtt.rs read: the events, and the numbers and
-- names of its enumerations, which are a parameter. `unlisted` stands for the variants that the
-- program does not name.
use fez_meshcore_controller.Prelude.{Bool, List, Option, Text, take, ℕ, ◌<◌, ◌≡◌}
use fez_meshcore_controller.Prelude.Int.{ℤ}
use fez_meshcore_controller.Core.Hex.{Bytes}

pub data PayloadType : Type 0 where
  req response text_msg advert group_text group_data anon_req path control : PayloadType
  unlisted : ℕ → PayloadType

pub record MeshPacketHeader : Type 0 where
  pub route_type : ℕ
  pub payload_type : PayloadType
  pub payload_version : ℕ
  pub path_len : ℕ
  pub path_hash_size : ℕ
  pub path : Bytes
  pub transport_code : Option Bytes

pub record RawAdvertisement : Type 0 where
  pub public_key : Bytes
  pub name : Option Text
  pub adv_type : ℕ
  pub lat : Option ℤ
  pub lon : Option ℤ

pub record LogData : Type 0 where
  pub header : Option MeshPacketHeader
  pub advertisement : Option RawAdvertisement
  pub snr : ℤ
  pub rssi : ℤ
  pub payload : Bytes

pub record ContactMessage : Type 0 where
  pub sender_prefix : Bytes
  pub path_len : ℕ
  pub txt_type : ℕ
  pub sender_timestamp : ℕ
  pub text : Text
  pub snr : Option ℤ

pub record ChannelMessage : Type 0 where
  pub channel_idx : ℕ
  pub path_len : ℕ
  pub txt_type : ℕ
  pub sender_timestamp : ℕ
  pub text : Text
  pub snr : Option ℤ

pub record Contact : Type 0 where
  pub public_key : Bytes
  pub contact_type : ℕ
  pub flags : ℕ
  pub path_len : ℤ
  pub out_path : Bytes
  pub adv_name : Text
  pub last_advert : ℕ
  pub adv_lat : ℤ
  pub adv_lon : ℤ
  pub last_modification_timestamp : ℕ

-- Its methods, the coordinates in micro-degrees. The prefix is the first six bytes of the key.
pub record ContactMethods : Type 0 where
  pub prefix : Contact → Bytes
  pub public_key_hex : Contact → Text
  pub latitude : Contact → ℤ
  pub longitude : Contact → ℤ
  pub prefix-key : (c : Contact) → prefix c ≡ take 6 c.public_key

pub record DeviceInfoData : Type 0 where
  pub fw_version_code : ℕ
  pub max_contacts : Option ℕ
  pub max_channels : Option ℕ
  pub ble_pin : Option ℕ
  pub fw_build : Option Text
  pub model : Option Text
  pub version : Option Text
  pub repeat : Option Bool

pub record BatteryInfo : Type 0 where
  pub battery_mv : ℕ
  pub used_kb : Option ℕ
  pub total_kb : Option ℕ

pub record SelfInfo : Type 0 where
  pub name : Text
  pub public_key : Bytes
  pub radio_freq : ℕ
  pub radio_bw : ℕ
  pub sf : ℕ
  pub cr : ℕ
  pub tx_power : ℕ
  pub adv_lat : ℤ
  pub adv_lon : ℤ

pub record CoreStatsData : Type 0 where
  pub battery_mv : ℕ
  pub uptime_secs : ℕ
  pub errors : ℕ
  pub queue_len : ℕ

pub record RadioStatsData : Type 0 where
  pub noise_floor : ℤ
  pub last_rssi : ℤ
  pub last_snr : ℤ
  pub tx_air_secs : ℕ
  pub rx_air_secs : ℕ

pub record PacketStatsData : Type 0 where
  pub recv : ℕ
  pub sent : ℕ
  pub flood_tx : ℕ
  pub direct_tx : ℕ
  pub flood_rx : ℕ
  pub direct_rx : ℕ
  pub recv_errors : Option ℕ

pub record StatusData : Type 0 where
  pub battery_mv : ℕ
  pub tx_queue_len : ℕ
  pub noise_floor : ℤ
  pub last_rssi : ℤ
  pub snr : ℤ
  pub nb_recv : ℕ
  pub nb_sent : ℕ
  pub dup_count : ℕ
  pub airtime : ℕ
  pub rx_airtime : ℕ
  pub uptime : ℕ
  pub flood_sent : ℕ
  pub direct_sent : ℕ

pub record Neighbour : Type 0 where
  pub pubkey : Bytes
  pub secs_ago : ℤ
  pub snr : ℤ

pub record NeighboursData : Type 0 where
  pub total : ℕ
  pub neighbours : List Neighbour

pub record ChannelInfo : Type 0 where
  pub channel_idx : ℕ
  pub name : Text
  pub secret : Bytes

pub record TraceHop : Type 0 where
  pub prefix : Bytes
  pub snr : ℤ

pub data EventPayload : Type 0 where
  log_data : LogData → EventPayload
  -- prefix, name, lat, lon
  advertisement : Bytes → Text → ℤ → ℤ → EventPayload
  contact : Contact → EventPayload
  contacts : List Contact → EventPayload
  contact_message : ContactMessage → EventPayload
  channel_message : ChannelMessage → EventPayload
  device_info : DeviceInfoData → EventPayload
  battery : BatteryInfo → EventPayload
  self_info : SelfInfo → EventPayload
  channel_info : ChannelInfo → EventPayload
  -- hops
  trace_data : List TraceHop → EventPayload
  telemetry : Bytes → EventPayload
  -- prefix, path_len, path
  path_update : Bytes → ℤ → Bytes → EventPayload
  -- tag
  ack : Bytes → EventPayload
  nothing : EventPayload
  string : Text → EventPayload
  unlisted_payload : EventPayload

pub data EventType : Type 0 where
  connected disconnected advertised new_contact contact_msg_recv : EventType
  channel_msg_recv msg_sent path_updated acked ok next_contact logged : EventType
  login_success login_failed device_info_received battery_received : EventType
  telemetry_response contacts_received self_info_received : EventType
  channel_info_received trace_received : EventType
  unlisted_event : Text → EventType

-- `as u8` and `{:?}` of the enumerations, and the methods of a contact. A route type is given by its number.
pub record Names : Type 0 where
  pub payload_code : PayloadType → ℕ
  pub payload_name : PayloadType → Text
  pub route_name : ℕ → Text
  pub event_name : EventType → Text
  pub contact : ContactMethods
  pub payload_code-lt : (t : PayloadType) → payload_code t < 16

pub record MeshCoreEvent : Type 0 where
  pub event_type : EventType
  pub payload : EventPayload
