-- ===== src/Core/Mesh/Packet.antt =====
-- The packet log entries of core/src/mesh.rs: the entry that is built from an event, the raw
-- packet that is reconstructed from an entry, and the node that an advertisement shows.
pub mod Frame
pub mod Discovery
use fez_meshcore_controller.Core.Mesh.Addressing.{
  extract_dest_src_hashes, extract_channel_hash, extract_anon_req_sender_public_key,
}
use fez_meshcore_controller.Core.Mesh.Control.{adv_type_name, decode_control_payload}
use fez_meshcore_controller.Prelude.{
  Bool, Option, Text, [], bit_and, bit_or, false, guard, length, map_option, none, some, take, true,
  unwrap_or, ℕ, ◌%◌, ◌*◌, ◌++◌, ◌-◌, ◌==◌, ◌>>=◌, ◌>>◌, ◌∷◌,
}
use fez_meshcore_controller.Prelude.Int.{ℤ, pos}
use fez_meshcore_controller.Core.Hex.{Bytes, hex_encode}
use fez_meshcore_controller.Core.Mesh.{
  PacketAdvertInfo, PacketHeaderInfo, PacketLogEntry, DiscoveredNode,
}
use fez_meshcore_controller.Core.Mesh.Source.{
  PayloadType, advert, Names, MeshPacketHeader, RawAdvertisement, LogData, EventPayload, log_data,
  MeshCoreEvent,
}

advert_info : RawAdvertisement → PacketAdvertInfo
unfolding adv_type_name
advert_info a = record {
  public_key_hex = hex_encode a.public_key;
  name = a.name;
  adv_type_name = adv_type_name a.adv_type;
  lat = a.lat;
  lon = a.lon;
}

header_info : Names → LogData → MeshPacketHeader → PacketHeaderInfo
unfolding advert_info
header_info names log h =
    let hashes = extract_dest_src_hashes h.payload_type h.payload_version log.payload in
    record {
      route_type = names.route_name h.route_type;
      route_type_raw = h.route_type;
      payload_type = names.payload_name h.payload_type;
      payload_type_raw = names.payload_code h.payload_type;
      payload_version = h.payload_version;
      hops = h.path_len;
      path_hash_size = h.path_hash_size;
      path_hex = hex_encode h.path;
      transport_code_hex = map_option hex_encode h.transport_code;
      dest_hash_hex = hashes.0;
      src_hash_hex = hashes.1;
      channel_hash_hex = extract_channel_hash h.payload_type h.payload_version log.payload;
      anon_req_sender_public_key_hex =
          extract_anon_req_sender_public_key h.payload_type h.payload_version log.payload;
      advertisement = map_option advert_info log.advertisement;
      control = decode_control_payload h.payload_type h.payload_version log.payload;
    }

entry_of_log : Names → LogData → ℕ → ℤ → PacketLogEntry
unfolding header_info
entry_of_log names log id now_unix = record {
  id = id;
  at_unix = now_unix;
  snr = log.snr;
  rssi = log.rssi;
  header = map_option (header_info names log) log.header;
  payload_hex = hex_encode log.payload;
  payload_len = length log.payload;
}

unfoldable pub build_packet_log_entry : Names → MeshCoreEvent → ℕ → ℤ → Option PacketLogEntry
unfolding entry_of_log
build_packet_log_entry names event id now_unix = elim event.payload [
  | log_data log ↦ some (entry_of_log names log id now_unix)
  | _ ↦ none
]

-- The header byte and the path byte, with the shifts of a u8.
unfoldable pub header_byte_of : ℕ → ℕ → ℕ → ℕ
header_byte_of version payload_type_raw route_type_raw =
    bit_or (bit_or (version * 64 % 256) (bit_and payload_type_raw 0x0F * 4 % 256))
      (bit_and route_type_raw 0x03)

unfoldable pub path_byte_of : ℕ → ℕ → ℕ
path_byte_of path_hash_size hops = bit_or ((path_hash_size - 1) * 64 % 256) (bit_and hops 0x3F)

unfoldable pub reconstruct_raw_packet_hex : PacketLogEntry → Option Text
unfolding header_byte_of path_byte_of
reconstruct_raw_packet_hex entry = do
  header ← entry.header
  let header_byte =
      header_byte_of header.payload_version header.payload_type_raw header.route_type_raw
  let path_byte = path_byte_of header.path_hash_size header.hops
  some (
      hex_encode (header_byte ∷ [])
      ++ (unwrap_or header.transport_code_hex []
          ++ (hex_encode (path_byte ∷ []) ++ (header.path_hex ++ entry.payload_hex))))

abbrev pub is_advert : PayloadType → Bool
is_advert advert = true
is_advert _ = false

unfoldable pub discovered_node : LogData → MeshPacketHeader → RawAdvertisement → ℤ → DiscoveredNode
discovered_node log header adv now_unix =
    let public_key_hex = hex_encode adv.public_key in
    record {
      name = unwrap_or adv.name [];
      public_key_hex = public_key_hex;
      public_key_prefix_hex = take 12 public_key_hex;
      is_repeater = adv.adv_type == 2;
      adv_type = adv.adv_type;
      lat = unwrap_or adv.lat (pos 0);
      lon = unwrap_or adv.lon (pos 0);
      last_seen_unix = now_unix;
      last_snr = some log.snr;
      last_rssi = some log.rssi;
      last_hop_count = some header.path_len;
    }

abbrev logged_data : EventPayload → Option LogData
logged_data (log_data log) = some log
logged_data _ = none

unfoldable pub extract_discovered_node : MeshCoreEvent → ℤ → Option DiscoveredNode
unfolding discovered_node
extract_discovered_node event now_unix = do
  log ← logged_data event.payload
  header ← log.header
  guard (is_advert header.payload_type)
  adv ← log.advertisement
  some (discovered_node log header adv now_unix)
