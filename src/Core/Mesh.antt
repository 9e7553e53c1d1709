-- ===== src/Core/Mesh.antt =====
-- The data transfer objects of core/src/mesh.rs, and the events of the
-- crate meshcore-rs that they are made from, as far as the program reads them.
--
-- Coordinates (f64 degrees) are the integers of micro-degrees that they are divided from, and
-- signal-to-noise ratios (f32 dB) the integers of quarter decibels; both divisions are exact
-- enough to tell these integers apart, and the program only copies, and compares with zero.
pub mod Source
pub mod Addressing
pub mod Control
pub mod Packet
pub mod Contacts
pub mod Detail
pub mod Events
pub mod Regions
pub mod Conversions
pub mod Client
use fez_meshcore_controller.Prelude.{Bool, List, Option, Text, ℕ, ◌==◌, ◌||◌}
use fez_meshcore_controller.Prelude.Int.{ℤ}
use fez_meshcore_controller.Core.Config.{RepeaterStatus}
use fez_meshcore_controller.Core.Telemetry.{TelemetryReading}

pub record SelfInfoDto : Type 0 where
  pub name : Text
  pub public_key_hex : Text
  -- in thousandths
  pub radio_freq_mhz : ℕ
  -- in thousandths
  pub radio_bw_khz : ℕ
  pub spreading_factor : ℕ
  pub coding_rate : ℕ
  pub tx_power_dbm : ℕ
  pub lat : ℤ
  pub lon : ℤ

pub record DeviceInfoDto : Type 0 where
  pub model : Text
  pub firmware_version : Text

pub record CoreStatsDto : Type 0 where
  pub battery_mv : ℕ
  pub uptime_secs : ℕ
  pub errors : ℕ
  pub queue_len : ℕ

pub record RadioStatsDto : Type 0 where
  pub noise_floor : ℤ
  pub last_rssi : ℤ
  pub last_snr : ℤ
  pub tx_air_secs : ℕ
  pub rx_air_secs : ℕ

pub record PacketStatsDto : Type 0 where
  pub recv : ℕ
  pub sent : ℕ
  pub flood_tx : ℕ
  pub direct_tx : ℕ
  pub flood_rx : ℕ
  pub direct_rx : ℕ
  pub recv_errors : Option ℕ

pub record NodeStatsDto : Type 0 where
  pub core : Option CoreStatsDto
  pub radio : Option RadioStatsDto
  pub packets : Option PacketStatsDto

pub record TelemetryDto : Type 0 where
  pub fetched_at_unix : ℤ
  pub readings : List TelemetryReading

pub record StatusDto : Type 0 where
  pub fetched_at_unix : ℤ
  pub battery_mv : ℕ
  pub tx_queue_len : ℕ
  pub noise_floor : ℤ
  pub last_rssi : ℤ
  pub last_snr : ℤ
  pub packets_received : ℕ
  pub packets_sent : ℕ
  pub duplicate_packets : ℕ
  pub airtime_secs : ℕ
  pub rx_airtime_secs : ℕ
  pub uptime_secs : ℕ
  pub flood_sent : ℕ
  pub direct_sent : ℕ

pub record NeighbourDto : Type 0 where
  pub public_key_prefix_hex : Text
  pub secs_ago : ℤ
  pub snr : ℤ

pub record NeighboursDto : Type 0 where
  pub fetched_at_unix : ℤ
  pub total : ℕ
  pub neighbours : List NeighbourDto

pub record RegionHierarchyEntryDto : Type 0 where
  pub name : Text
  pub depth : ℕ
  pub is_home : Bool
  pub flood_allowed : Bool

pub record RegionHierarchyDto : Type 0 where
  pub fetched_at_unix : ℤ
  pub entries : List RegionHierarchyEntryDto
  pub raw_text : Text

pub record ContactDto : Type 0 where
  pub name : Text
  pub public_key_prefix_hex : Text
  pub last_advert_unix : ℕ
  pub lat : ℤ
  pub lon : ℤ
  pub registered : Bool
  pub managed : Bool
  pub repeater_status : Option RepeaterStatus
  pub contact_type : ℕ
  pub last_telemetry : Option TelemetryDto

pub record DiscoveredNode : Type 0 where
  pub name : Text
  pub public_key_hex : Text
  pub public_key_prefix_hex : Text
  pub is_repeater : Bool
  pub adv_type : ℕ
  pub lat : ℤ
  pub lon : ℤ
  pub last_seen_unix : ℤ
  pub last_snr : Option ℤ
  pub last_rssi : Option ℤ
  pub last_hop_count : Option ℕ

pub data ControlPayloadInfo : Type 0 where
  -- prefix_only, type_filter, tag_hex, since_unix
  discover_req : Bool → ℕ → Text → Option ℕ → ControlPayloadInfo
  -- node_type_name, snr, tag_hex, pubkey_hex
  discover_resp : Text → ℤ → Text → Text → ControlPayloadInfo

pub record PacketAdvertInfo : Type 0 where
  pub public_key_hex : Text
  pub name : Option Text
  pub adv_type_name : Text
  pub lat : Option ℤ
  pub lon : Option ℤ

pub record PacketHeaderInfo : Type 0 where
  pub route_type : Text
  pub route_type_raw : ℕ
  pub payload_type : Text
  pub payload_type_raw : ℕ
  pub payload_version : ℕ
  pub hops : ℕ
  pub path_hash_size : ℕ
  pub path_hex : Text
  pub transport_code_hex : Option Text
  pub dest_hash_hex : Option Text
  pub src_hash_hex : Option Text
  pub channel_hash_hex : Option Text
  pub anon_req_sender_public_key_hex : Option Text
  pub advertisement : Option PacketAdvertInfo
  pub control : Option ControlPayloadInfo

pub record PacketLogEntry : Type 0 where
  pub id : ℕ
  pub at_unix : ℤ
  pub snr : ℤ
  pub rssi : ℤ
  pub header : Option PacketHeaderInfo
  pub payload_hex : Text
  pub payload_len : ℕ

-- Whether an advertiser type byte is a repeater's or a room server's.
unfoldable pub is_repeater_or_room : ℕ → Bool
is_repeater_or_room contact_type = contact_type == 2 || contact_type == 3
