-- ===== src/Cli/Examples.antt =====
-- The theorems of the client at concrete inputs.
mod Repeaters
mod Wizard
use fez_meshcore_controller.Prelude.{List, Text, [], codes, none, some, ℕ, ◌∷◌}
use mathlib.Core.List.{Perm}
use fez_meshcore_controller.Prelude.Int.{pos, negsuc}
use fez_meshcore_controller.Core.Mesh.{PacketHeaderInfo, PacketLogEntry}
use fez_meshcore_controller.Cli.PacketGroup.{group_packets}
use fez_meshcore_controller.Cli.PacketGroup.Chains.{AreChains, group_packets-AreChains}
use fez_meshcore_controller.Cli.PacketGroup.Partition.{all_members, group_packets-Perm}

abbrev header : PacketHeaderInfo
header = record {
  route_type = codes "Flood";
  route_type_raw = 1;
  payload_type = codes "Advert";
  payload_type_raw = 4;
  payload_version = 0;
  hops = 1;
  path_hash_size = 1;
  path_hex = codes "aa";
  transport_code_hex = none;
  dest_hash_hex = none;
  src_hash_hex = none;
  channel_hash_hex = none;
  anon_req_sender_public_key_hex = none;
  advertisement = none;
  control = none;
}

abbrev packet : ℕ → ℕ → Text → PacketLogEntry
packet id at payload_hex = record {
  id = id;
  at_unix = pos at;
  snr = pos 0;
  rssi = negsuc 89;
  header = some header;
  payload_hex = payload_hex;
  payload_len = 1;
}

-- Newest first: two receptions of one packet around another, and a third that is too late.
abbrev packets : List PacketLogEntry
packets =
    packet 4 300 (codes "07")
    ∷ packet 3 110 (codes "07")
    ∷ packet 2 105 (codes "08")
    ∷ packet 1 100 (codes "07")
    ∷ []

group_packets-AreChains_example : AreChains (group_packets packets)
group_packets-AreChains_example = group_packets-AreChains packets

group_packets-Perm_example : Perm (all_members (group_packets packets)) packets
group_packets-Perm_example = group_packets-Perm packets
