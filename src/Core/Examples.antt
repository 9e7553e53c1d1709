-- ===== src/Core/Examples.antt =====
-- The theorems of core/src/mesh.rs at concrete inputs.
mod Regions
mod Payloads
use fez_meshcore_controller.Prelude.{
  List, [], arith, codes, false, inl, none, refl, replicate, some, take, true, ℕ, ◌++◌, ◌>>=◌, ◌∷◌,
  ◌≡◌,
}
use fez_meshcore_controller.Prelude.Int.{pos, negsuc}
use fez_meshcore_controller.Core.Hex.{hex_encode}
use fez_meshcore_controller.Core.Crypto.{calc_transport_code, mac_then_decrypt}
use fez_meshcore_controller.Core.Crypto.Codes.{IsCode, calc_transport_code-IsCode}
use fez_meshcore_controller.Core.Crypto.Decrypt.{
  encrypt_then_mac, mac_then_decrypt-encrypt, IsOpened, mac_then_decrypt-IsOpened,
}
use fez_meshcore_controller.Core.Telemetry.{find_type, types, decode_from, decode_telemetry}
use fez_meshcore_controller.Core.Telemetry.Fields.{Field, scalar, gps, payload_bytes, all_readings}
use fez_meshcore_controller.Core.Telemetry.RoundTrip.{decode_from-enough, decode_telemetry-payload}
use fez_meshcore_controller.Core.Mesh.{DiscoveredNode, ContactDto, discover_req, discover_resp}
use fez_meshcore_controller.Core.Mesh.Source.{
  advert, anon_req, control, MeshPacketHeader, RawAdvertisement, LogData, logged, MeshCoreEvent,
  log_data,
}
use fez_meshcore_controller.Core.Hex.{IsBytes}
use fez_meshcore_controller.Core.Hex.Digits.{decoder}
use fez_meshcore_controller.Core.Config.{RegionConfig}
use fez_meshcore_controller.Core.Crypto.{group_channel_secret_and_hash}
use fez_meshcore_controller.Core.Crypto.Decrypt.{encrypt_blocks}
use fez_meshcore_controller.Core.Mesh.{PacketHeaderInfo, PacketLogEntry}
use fez_meshcore_controller.Core.Region.{precompute_region_keys, matching_region_name}
use fez_meshcore_controller.Core.Region.Transport.{region_code, matching_region_name-region_code}
use fez_meshcore_controller.Core.Channel.{
  ChannelKey, channel_key, public_channel_name, public_channel_psk, precompute_channel_keys,
  decode_group_text,
}
use fez_meshcore_controller.Core.Channel.Lossy.{utf8}
use fez_meshcore_controller.Core.Channel.Message.{group_text_bytes, decode_group_text-encrypt}
use fez_meshcore_controller.Core.Mesh.Addressing.Visible.{IsAddressed, IsAddressed-all}
use fez_meshcore_controller.Core.Mesh.Control.{adv_type_name, as_i8, decode_control_payload}
use fez_meshcore_controller.Core.Mesh.Control.Layout.{
  IsTypeName, discover_req_bytes, discover_resp_bytes, decode-discover_req, decode-discover_resp,
}
use fez_meshcore_controller.Core.Mesh.Contacts.{contacts_to_prune, matching_repeater_status}
use fez_meshcore_controller.Core.Mesh.Detail.{
  ok, err, RepeaterDetailCategory, pending, status, telemetry,
}
use fez_meshcore_controller.Core.Mesh.Detail.Folding.{apply_all, summary, apply_all-summary}
use fez_meshcore_controller.Core.Mesh.Packet.{
  build_packet_log_entry, reconstruct_raw_packet_hex, header_byte_of, path_byte_of,
  extract_discovered_node,
}
use fez_meshcore_controller.Core.Mesh.Packet.Frame.{
  frame_bytes, logged_event, reconstruct-build, packet_bytes_fields,
}
use fez_meshcore_controller.Core.Mesh.Packet.Discovery.{
  IsHeard, IsShown, extract_discovered_node-IsHeard,
}
use fez_meshcore_controller.Samples.{toy_primitives, toy_encryption, toy_names, sample_repeater}

decode-discover_resp_example :
    decode_control_payload control 0
      (discover_resp_bytes 2 250 (1 ∷ 2 ∷ 3 ∷ 4 ∷ []) (replicate 32 9))
    ≡ some (
        discover_resp
          (codes "Repeater")
          (negsuc 5)
          (hex_encode (1 ∷ 2 ∷ 3 ∷ 4 ∷ []))
          (hex_encode (replicate 32 9)))
decode-discover_resp_example =
    decode-discover_resp 2 (codes "Repeater") (negsuc 5) 1 2 3 4 (replicate 32 9) (omega arith)
      IsTypeName.repeater (omega arith) (inl refl)

abbrev contact : List ℕ → ContactDto
contact prefix = record {
  name = codes "Valley";
  public_key_prefix_hex = prefix;
  last_advert_unix = 1700000000;
  lat = pos 0;
  lon = pos 0;
  registered = true;
  managed = false;
  repeater_status = none;
  contact_type = 2;
  last_telemetry = none;
}

abbrev contacts : List ContactDto
contacts = contact (codes "AABBCCDDEEFF") ∷ contact (codes "001122334455") ∷ []

abbrev updates : List RepeaterDetailCategory
updates =
    telemetry (ok (record { fetched_at_unix = pos 5; readings = [] }))
    ∷ status (err (codes "timeout"))
    ∷ telemetry (err (codes "no reply"))
    ∷ []

apply_all-summary_example : apply_all pending updates ≡ summary pending updates
apply_all-summary_example = apply_all-summary pending updates

abbrev advertisement : RawAdvertisement
advertisement = record {
  public_key = replicate 32 171;
  name = some (codes "Peak");
  adv_type = 2;
  lat = none;
  lon = none;
}

abbrev header : MeshPacketHeader
header = record {
  route_type = 1;
  payload_type = advert;
  payload_version = 0;
  path_len = 2;
  path_hash_size = 1;
  path = 17 ∷ 34 ∷ [];
  transport_code = none;
}

abbrev log : LogData
log = record {
  header = some header;
  advertisement = some advertisement;
  snr = pos 20;
  rssi = negsuc 89;
  payload = replicate 32 171 ++ (1 ∷ 2 ∷ []);
}

reconstruct-build_example :
    (build_packet_log_entry toy_names (logged_event log logged) 7 (pos 9)
      >>= reconstruct_raw_packet_hex)
    ≡ some (hex_encode (frame_bytes toy_names log header))
reconstruct-build_example = reconstruct-build toy_names log 7 (pos 9) logged header refl (record {
  route = omega arith;
  version = omega arith;
  hash_size = (omega arith, omega arith);
  hops = omega arith;
})

abbrev event : MeshCoreEvent
event = record { event_type = logged; payload = log_data log }

abbrev heard_node : DiscoveredNode
heard_node = record {
  name = codes "Peak";
  public_key_hex = hex_encode (replicate 32 171);
  public_key_prefix_hex = take 12 (hex_encode (replicate 32 171));
  is_repeater = true;
  adv_type = 2;
  lat = pos 0;
  lon = pos 0;
  last_seen_unix = pos 9;
  last_snr = some (pos 20);
  last_rssi = some (negsuc 89);
  last_hop_count = some 2;
}
