-- ===== src/Core/Mesh/Packet/Frame.antt =====
-- `reconstruct_raw_packet_hex` against the packet layout: the bytes that were decoded come back.
use fez_meshcore_controller.Prelude.{
  Option, [], arith, bit_and, map_option, none, refl, some, unwrap_or, ℕ, ◌%◌, ◌*◌, ◌++◌, ◌+◌, ◌-◌,
  ◌/◌, ◌<◌, ◌>>=◌, ◌∷◌, ◌≡◌, ◌≤◌,
}
use fez_meshcore_controller.Prelude.Int.{ℤ}
use fez_meshcore_controller.Prelude.Bits.{
  bit_and-nibble, bit_and-two_bits, bit_and-six_bits, bit_or-join_six, bit_or-join_three,
}
use fez_meshcore_controller.Core.Hex.{Bytes, hex_encode, hex_encode-append}
use fez_meshcore_controller.Core.Mesh.Source.{
  Names, MeshPacketHeader, LogData, log_data, EventType, MeshCoreEvent,
}
use fez_meshcore_controller.Core.Mesh.Packet.{
  build_packet_log_entry, header_byte_of, path_byte_of, reconstruct_raw_packet_hex,
}

-- The fields that fit their bits.
pub record IsFrame (h : MeshPacketHeader) : Type 0 where
  pub route : h.route_type < 4
  pub version : h.payload_version < 4
  pub hash_size : (0 < h.path_hash_size) × (h.path_hash_size ≤ 4)
  pub hops : h.path_len < 64

-- The packet on the air: bits 0-1 of the first byte the route type, 2-5 the payload type, 6-7 the
-- version; the transport code, if any; bits 0-5 of the path byte the hops, 6-7 the hash size less
-- one; the path; the payload.
pub frame_bytes : Names → LogData → MeshPacketHeader → Bytes
frame_bytes names log h =
    (h.payload_version * 64 + names.payload_code h.payload_type * 4 + h.route_type)
    ∷ (unwrap_or h.transport_code []
        ++ ((h.path_hash_size - 1) * 64 + h.path_len) ∷ (h.path ++ log.payload))

header_byte_of-eq : (v t r : ℕ) → v < 4 → t < 16 → r < 4 → header_byte_of v t r ≡ v * 64 + t * 4 + r
unfolding header_byte_of
header_byte_of-eq v t r hv ht hr =
    let shifted : v * 64 % 256 ≡ v * 64 = omega arith in
    let kind : bit_and t 15 * 4 % 256 ≡ t * 4 = omega (arith, bit_and-nibble t (omega arith)) in
    let route : bit_and r 3 ≡ r = omega (arith, bit_and-two_bits r (omega arith)) in
    rw (shifted, kind, route) (bit_or-join_three v t r hv ht hr)

path_byte_of-eq : (s n : ℕ) → 0 < s → s ≤ 4 → n < 64 → path_byte_of s n ≡ (s - 1) * 64 + n
unfolding path_byte_of
path_byte_of-eq s n hs hs' hn =
    let shifted : (s - 1) * 64 % 256 ≡ (s - 1) * 64 = omega arith in
    let hops : bit_and n 63 ≡ n = omega (arith, bit_and-six_bits n (omega arith)) in
    rw (shifted, hops) (bit_or-join_six (s - 1) n (omega arith) hn)

-- The header byte and the path byte hold each field at its bits, for fields within their widths.
pub packet_bytes_fields :
    (v t r s n : ℕ)
    → v < 4
    → t < 16
    → r < 4
    → 0 < s
    → s ≤ 4
    → n < 64
    → let b = header_byte_of v t r in
      let c = path_byte_of s n in
      (b < 256)
      × (b / 64 ≡ v)
      × (b / 4 % 16 ≡ t)
      × (b % 4 ≡ r)
      × (c < 256)
      × (c / 64 + 1 ≡ s)
      × (c % 64 ≡ n)
packet_bytes_fields v t r s n hv ht hr hs hs' hn =
    omega (arith, header_byte_of-eq v t r hv ht hr, path_byte_of-eq s n hs hs' hn)

optional_code :
    (c : Option Bytes) → unwrap_or (map_option hex_encode c) [] ≡ hex_encode (unwrap_or c [])
unfolding hex_encode
optional_code none = refl
optional_code (some c) = refl

-- The frame as text, part by part.
hex_frame :
    (b c : ℕ) (code path payload : Bytes)
    → hex_encode (b ∷ (code ++ c ∷ (path ++ payload)))
      ≡ hex_encode (b ∷ [])
        ++ (hex_encode code ++ (hex_encode (c ∷ []) ++ (hex_encode path ++ hex_encode payload)))
unfolding hex_encode
hex_frame b c code path payload =
    rw (hex_encode-append code (c ∷ (path ++ payload)), hex_encode-append path payload)

abbrev pub logged_event : LogData → EventType → MeshCoreEvent
logged_event log event_type = record { event_type = event_type; payload = log_data log }

module _ (names : Names) (log : LogData) (id : ℕ) (now_unix : ℤ) (event_type : EventType) where
  -- The raw packet of a logged event is, in hexadecimal, exactly the frame that its header and
  -- payload were decoded from, if the header's fields are within their widths.
  pub reconstruct-build :
      (h : MeshPacketHeader)
      → log.header ≡ some h
      → IsFrame h
      → (build_packet_log_entry names (logged_event log event_type) id now_unix
          >>= reconstruct_raw_packet_hex)
        ≡ some (hex_encode (frame_bytes names log h))
  unfolding build_packet_log_entry reconstruct_raw_packet_hex frame_bytes
  reconstruct-build h e f =
      let code = names.payload_code h.payload_type in
      let head =
        header_byte_of-eq h.payload_version code h.route_type f.version
          (names.payload_code-lt h.payload_type) f.route in
      let path = path_byte_of-eq h.path_hash_size h.path_len f.hash_size.0 f.hash_size.1 f.hops in
      rw (
        e,
        head,
        path,
        optional_code h.transport_code,
        hex_frame (h.payload_version * 64 + code * 4 + h.route_type)
            ((h.path_hash_size - 1) * 64 + h.path_len) (unwrap_or h.transport_code []) h.path
            log.payload,
      )
