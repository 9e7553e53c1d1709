-- ===== src/Core/Mesh/Control.antt =====
-- The control payloads of core/src/mesh.rs.
pub mod Layout
use fez_meshcore_controller.Prelude.{
  Bool, Option, Text, [], bit_and, codes, decimal, false, get_or, if◌then◌else◌, leb, length, ltb,
  none, not, some, true, ℕ, ◌*◌, ◌++◌, ◌+◌, ◌-◌, ◌==◌, ◌>>=◌, ◌>>◌, ◌||◌, ◌∷◌,
}
use fez_meshcore_controller.Core.Hex.{Bytes, hex_encode}
use fez_meshcore_controller.Core.Mesh.Source.{
  PayloadType, req, response, text_msg, advert, group_text, group_data, anon_req, path, control,
}
use fez_meshcore_controller.Core.Mesh.{ControlPayloadInfo, discover_req, discover_resp}
use fez_meshcore_controller.Core.Mesh.Addressing.{pub_key_size, slice}
use fez_meshcore_controller.Prelude.Int.{ℤ, pos, negsuc}

unfoldable pub adv_type_name : ℕ → Text
unfolding decimal
adv_type_name adv_type =
    if adv_type == 1
    then codes "Chat"
    else if adv_type == 2
    then codes "Repeater"
    else if adv_type == 3
    then codes "Room"
    else if adv_type == 4
    then codes "Sensor"
    else codes "Unknown(" ++ (decimal adv_type ++ codes ")")

-- `as i8`, in quarter decibels after the division by 4.0.
abbrev pub as_i8 : ℕ → ℤ
as_i8 b = if ltb b 128 then pos b else negsuc (255 - b)

-- `u32::from_le_bytes`.
abbrev pub from_le_bytes : Bytes → ℕ
from_le_bytes [] = 0
from_le_bytes (b ∷ bs) = b + 256 * from_le_bytes bs

abbrev pub is_control : PayloadType → Bool
is_control control = true
is_control _ = false

decode_discover_req : ℕ → Text → Bytes → ControlPayloadInfo
decode_discover_req flags tag_hex payload =
    let since_unix =
      if leb 10 (length payload) then some (from_le_bytes (slice 6 4 payload)) else none in
    discover_req (not (bit_and flags 1 == 0)) (get_or payload 1 0) tag_hex since_unix

decode_discover_resp : ℕ → Text → Bytes → Option ControlPayloadInfo
decode_discover_resp flags tag_hex payload = do
  pubkey ←
      if leb (6 + pub_key_size) (length payload)
      then some (slice 6 pub_key_size payload)
      else if leb (6 + 8) (length payload)
      then some (slice 6 8 payload)
      else none
  some (
      discover_resp (adv_type_name (bit_and flags 15)) (as_i8 (get_or payload 1 0)) tag_hex
        (hex_encode pubkey))

unfoldable pub decode_control_payload : PayloadType → ℕ → Bytes → Option ControlPayloadInfo
unfolding decode_discover_req decode_discover_resp
decode_control_payload payload_type payload_version payload =
    if not (is_control payload_type) || not (payload_version == 0)
    then none
    else if ltb (length payload) 6
    then none
    else let flags = get_or payload 0 0 in
      let tag_hex = hex_encode (slice 2 4 payload) in
      if bit_and flags 0xF0 == 0x80
      then some (decode_discover_req flags tag_hex payload)
      else if bit_and flags 0xF0 == 0x90
      then decode_discover_resp flags tag_hex payload
      else none
