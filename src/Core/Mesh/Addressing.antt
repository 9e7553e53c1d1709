-- ===== src/Core/Mesh/Addressing.antt =====
-- The addresses at the front of a payload, in core/src/mesh.rs.
pub mod Visible
use fez_meshcore_controller.Prelude.{
  Bool, Option, Text, drop, false, if◌then◌else◌, length, ltb, none, not, some, take, true, ℕ, ◌*◌,
  ◌+◌, ◌==◌, ◌||◌,
}
use fez_meshcore_controller.Core.Hex.{Bytes, hex_encode}
use fez_meshcore_controller.Core.Mesh.Source.{
  PayloadType, req, response, text_msg, advert, group_text, group_data, anon_req, path, control,
}

abbrev pub address_hash_size : ℕ
address_hash_size = 1

abbrev pub pub_key_size : ℕ
pub_key_size = 32

-- `&payload[start..start + size]`.
abbrev pub slice : ℕ → ℕ → Bytes → Bytes
slice start size payload = take size (drop start payload)

-- Of a payload that begins with a destination and a source hash.
both_hashes : Bytes → Option Text × Option Text
both_hashes payload = if ltb (length payload) (address_hash_size * 2) then (none, none) else (
  some (hex_encode (slice 0 address_hash_size payload)),
  some (hex_encode (slice address_hash_size address_hash_size payload)),
)

dest_hash : Bytes → Option Text × Option Text
dest_hash payload =
    if ltb (length payload) address_hash_size
    then (none, none)
    else (some (hex_encode (slice 0 address_hash_size payload)), none)

hashes_by_type : PayloadType → Bytes → Option Text × Option Text
unfolding both_hashes dest_hash
hashes_by_type req payload = both_hashes payload
hashes_by_type response payload = both_hashes payload
hashes_by_type text_msg payload = both_hashes payload
hashes_by_type path payload = both_hashes payload
hashes_by_type anon_req payload = dest_hash payload
hashes_by_type _ payload = (none, none)

unfoldable pub extract_dest_src_hashes : PayloadType → ℕ → Bytes → Option Text × Option Text
unfolding hashes_by_type
extract_dest_src_hashes payload_type payload_version payload =
    if not (payload_version == 0) then (none, none) else hashes_by_type payload_type payload

abbrev pub is_group : PayloadType → Bool
is_group group_text = true
is_group group_data = true
is_group _ = false

unfoldable pub extract_channel_hash : PayloadType → ℕ → Bytes → Option Text
extract_channel_hash payload_type payload_version payload =
    if not (payload_version == 0)
    then none
    else if not (is_group payload_type)
    then none
    else if ltb (length payload) address_hash_size
    then none
    else some (hex_encode (slice 0 address_hash_size payload))

abbrev pub is_anon_req : PayloadType → Bool
is_anon_req anon_req = true
is_anon_req _ = false

unfoldable pub extract_anon_req_sender_public_key : PayloadType → ℕ → Bytes → Option Text
extract_anon_req_sender_public_key payload_type payload_version payload =
    if not (is_anon_req payload_type) || not (payload_version == 0)
    then none
    else if ltb (length payload) (address_hash_size + pub_key_size)
    then none
    else some (hex_encode (slice address_hash_size pub_key_size payload))
