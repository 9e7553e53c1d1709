-- ===== src/Core/Mesh/Conversions.antt =====
-- The conversions of core/src/mesh.rs from the data of meshcore-rs to what is displayed.
use fez_meshcore_controller.Prelude.{
  Option, Text, [], codes, false, if◌then◌else◌, map, none, some, true, unwrap_or, ◌++◌, ◌/◌, ◌==◌,
  ◌∷◌,
}
use fez_meshcore_controller.Prelude.Int.{ℤ}
use fez_meshcore_controller.Core.Hex.{hex_encode}
use fez_meshcore_controller.Core.Mesh.{
  SelfInfoDto, DeviceInfoDto, CoreStatsDto, RadioStatsDto, PacketStatsDto, StatusDto, NeighbourDto,
  NeighboursDto, ContactDto,
}
use fez_meshcore_controller.Core.Mesh.Source.{
  SelfInfo, DeviceInfoData, CoreStatsData, RadioStatsData, PacketStatsData, StatusData, Neighbour,
  NeighboursData, Contact, ContactMethods,
}

unfoldable pub self_info_dto : SelfInfo → SelfInfoDto
unfolding hex_encode
self_info_dto info = record {
  name = info.name;
  public_key_hex = hex_encode info.public_key;
  radio_freq_mhz = info.radio_freq;
  radio_bw_khz = info.radio_bw;
  spreading_factor = info.sf;
  coding_rate = info.cr;
  tx_power_dbm = info.tx_power;
  lat = info.adv_lat;
  lon = info.adv_lon;
}

-- `strip_prefix('v')`, or the text as it is.
unfoldable pub strip_v : Text → Text
strip_v [] = []
strip_v (c ∷ text) = if c == b'v' then text else c ∷ text

unfoldable pub firmware_version : Option Text → Option Text → Text
unfolding strip_v
firmware_version (some version) (some build) =
    b'v' ∷ strip_v version ++ (codes " (Build: " ++ (build ++ codes ")"))
firmware_version (some version) none = codes "unknown"
firmware_version none build = codes "unknown"

unfoldable pub device_info_dto : DeviceInfoData → DeviceInfoDto
unfolding firmware_version
device_info_dto info = record {
  model = unwrap_or info.model (codes "unknown");
  firmware_version = firmware_version info.version info.fw_build;
}

abbrev pub core_stats_dto : CoreStatsData → CoreStatsDto
core_stats_dto stats = record {
  battery_mv = stats.battery_mv;
  uptime_secs = stats.uptime_secs;
  errors = stats.errors;
  queue_len = stats.queue_len;
}

abbrev pub radio_stats_dto : RadioStatsData → RadioStatsDto
radio_stats_dto stats = record {
  noise_floor = stats.noise_floor;
  last_rssi = stats.last_rssi;
  last_snr = stats.last_snr;
  tx_air_secs = stats.tx_air_secs;
  rx_air_secs = stats.rx_air_secs;
}

abbrev pub packet_stats_dto : PacketStatsData → PacketStatsDto
packet_stats_dto stats = record {
  recv = stats.recv;
  sent = stats.sent;
  flood_tx = stats.flood_tx;
  direct_tx = stats.direct_tx;
  flood_rx = stats.flood_rx;
  direct_rx = stats.direct_rx;
  recv_errors = stats.recv_errors;
}

unfoldable pub status_dto_from : StatusData → ℤ → StatusDto
status_dto_from status fetched_at_unix = record {
  fetched_at_unix = fetched_at_unix;
  battery_mv = status.battery_mv;
  tx_queue_len = status.tx_queue_len;
  noise_floor = status.noise_floor;
  last_rssi = status.last_rssi;
  last_snr = status.snr;
  packets_received = status.nb_recv;
  packets_sent = status.nb_sent;
  duplicate_packets = status.dup_count;
  airtime_secs = status.airtime / 1000;
  rx_airtime_secs = status.rx_airtime / 1000;
  uptime_secs = status.uptime;
  flood_sent = status.flood_sent;
  direct_sent = status.direct_sent;
}

abbrev pub neighbour_dto : Neighbour → NeighbourDto
unfolding hex_encode
neighbour_dto n = record {
  public_key_prefix_hex = hex_encode n.pubkey;
  secs_ago = n.secs_ago;
  snr = n.snr;
}

unfoldable pub neighbours_dto_from : NeighboursData → ℤ → NeighboursDto
neighbours_dto_from received fetched_at_unix = record {
  fetched_at_unix = fetched_at_unix;
  total = received.total;
  neighbours = map neighbour_dto received.neighbours;
}

unfoldable pub contact_dto : ContactMethods → Contact → ContactDto
unfolding hex_encode
contact_dto methods c = record {
  name = c.adv_name;
  public_key_prefix_hex = hex_encode (methods.prefix c);
  last_advert_unix = c.last_advert;
  lat = c.adv_lat;
  lon = c.adv_lon;
  registered = true;
  managed = false;
  repeater_status = none;
  contact_type = c.contact_type;
  last_telemetry = none;
}
