-- ===== src/Core/Region.antt =====
-- core/src/region.rs: the configured region that a packet's transport code belongs to.
pub mod Transport
pub mod Tree
use fez_meshcore_controller.Prelude.{
  List, Option, Text, find_map, guard, if◌then◌else◌, length, ltb, map, none, not, some, take,
  text_eq, ℕ, ◌>>=◌, ◌>>◌,
}
use fez_meshcore_controller.Core.Hex.{Bytes, HexDecoder}
use fez_meshcore_controller.Core.Crypto.{Primitives, calc_transport_code, derive_region_key}
use fez_meshcore_controller.Core.Config.{RegionConfig}
use fez_meshcore_controller.Core.Mesh.{PacketHeaderInfo, PacketLogEntry}

module _ (p : Primitives) where
  unfoldable pub precompute_region_keys : List RegionConfig → List (Text × Bytes)
  unfolding derive_region_key
  precompute_region_keys regions = map (λ r. (r.name, derive_region_key p r.name)) regions

  -- The first region of the list whose key computes the observed code.
  unfoldable pub find_region : Bytes → ℕ → Bytes → List (Text × Bytes) → Option Text
  unfolding calc_transport_code
  find_region observed payload_type_raw payload keys =
      find_map
        (λ k.
          if text_eq (calc_transport_code p k.1 payload_type_raw payload) observed
          then some k.0
          else none)
        keys

  module _ (d : HexDecoder) where
    unfoldable pub matching_region_name : PacketLogEntry → List (Text × Bytes) → Option Text
    unfolding find_region
    matching_region_name entry region_keys = do
      header ← entry.header
      transport_code_hex ← header.transport_code_hex
      guard (not (ltb (length transport_code_hex) 4))
      observed ← d.hex_decode (take 4 transport_code_hex)
      payload ← d.hex_decode entry.payload_hex
      find_region observed header.payload_type_raw payload region_keys
