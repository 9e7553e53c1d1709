-- ===== src/Core/Mesh/Control/Layout.antt =====
-- `decode_control_payload` against the two layouts that the firmware sends.
use fez_meshcore_controller.Prelude.{
  Bool, Option, Text, [], arith, bit_and, codes, decimal, false, if◌then◌else◌, inl, inr, length,
  none, refl, some, take-eq_self, true, ℕ, ◌%◌, ◌++◌, ◌+◌, ◌-◌, ◌/◌, ◌<◌, ◌^◌, ◌∙◌, ◌∷◌, ◌≡◌, ◌≤◌,
  ◌⊎◌,
}
use fez_meshcore_controller.Prelude.Bits.{bit_and-nibble, bit_and-high_nibble}
use fez_meshcore_controller.Core.Hex.{Bytes, hex_encode}
use fez_meshcore_controller.Core.Mesh.{discover_req, discover_resp}
use fez_meshcore_controller.Core.Mesh.Source.{control}
use fez_meshcore_controller.Prelude.Int.{ℤ, pos, negsuc}
use fez_meshcore_controller.Core.Mesh.Control.{adv_type_name, as_i8, decode_control_payload}

-- `u32::to_le_bytes`.
abbrev pub le_bytes : ℕ → Bytes
le_bytes n = (n % 256) ∷ (n / 256 % 256) ∷ (n / 65536 % 256) ∷ (n / 16777216 % 256) ∷ []

abbrev optional_since : Option ℕ → Bytes
optional_since none = []
optional_since (some n) = le_bytes n

-- [flags: 0x8_ | prefix_only][type_filter][tag: 4][since: 4 LE, optional]
pub discover_req_bytes : Bool → ℕ → Bytes → Option ℕ → Bytes
discover_req_bytes prefix_only type_filter tag since =
    (if prefix_only then 0x81 else 0x80) ∷ type_filter ∷ (tag ++ optional_since since)

-- [flags: 0x9_ | node_type][snr: i8][tag: 4][pubkey]
pub discover_resp_bytes : ℕ → ℕ → Bytes → Bytes → Bytes
discover_resp_bytes node_type snr tag pubkey = (0x90 + node_type) ∷ snr ∷ (tag ++ pubkey)

abbrev Fits : Option ℕ → Type 0
Fits none = Unit {0}
Fits (some n) = n < 2 ^ 32

-- A discovery request that is laid out in bytes is decoded to its fields, with or without the
-- optional timestamp.
pub decode-discover_req :
    (prefix_only : Bool) (type_filter : ℕ) (t0 t1 t2 t3 : ℕ) (since : Option ℕ)
    → Fits since
    → let tag = t0 ∷ t1 ∷ t2 ∷ t3 ∷ [] in
      decode_control_payload control 0 (discover_req_bytes prefix_only type_filter tag since)
      ≡ some (discover_req prefix_only type_filter (hex_encode tag) since)
unfolding decode_control_payload discover_req_bytes
decode-discover_req false f t0 t1 t2 t3 none h = refl
decode-discover_req true f t0 t1 t2 t3 none h = refl
decode-discover_req false f t0 t1 t2 t3 (some n) h = ground arith
decode-discover_req true f t0 t1 t2 t3 (some n) h = ground arith

-- A signed byte in two's complement, of the integers that fit it.
abbrev pub i8_byte : ℤ → ℕ
i8_byte (pos n) = n
i8_byte (negsuc n) = 256 - (n + 1)

abbrev pub FitsI8 : ℤ → Type 0
FitsI8 (pos n) = n ≤ 127
FitsI8 (negsuc n) = n + 1 ≤ 128

-- The names of the advertiser types, and of the numbers that have none.
pub data IsTypeName : ℕ → Text → Type 0 where
  chat : IsTypeName 1 (codes "Chat")
  repeater : IsTypeName 2 (codes "Repeater")
  room : IsTypeName 3 (codes "Room")
  sensor : IsTypeName 4 (codes "Sensor")
  unnamed :
      {n : ℕ} → (n ≡ 0) ⊎ (4 < n) → IsTypeName n (codes "Unknown(" ++ (decimal n ++ codes ")"))

adv_type_name-IsTypeName : (n : ℕ) (name : Text) → IsTypeName n name → adv_type_name n ≡ name
unfolding adv_type_name
adv_type_name-IsTypeName n name chat = refl
adv_type_name-IsTypeName n name repeater = refl
adv_type_name-IsTypeName n name room = refl
adv_type_name-IsTypeName n name sensor = refl
adv_type_name-IsTypeName n name (unnamed h) = ground (arith, h)

as_i8-byte : (z : ℤ) → FitsI8 z → as_i8 (i8_byte z) ≡ z
as_i8-byte (pos n) h = ground (arith, h)
as_i8-byte (negsuc n) h = ground (arith, h)

decode_resp-raw :
    (node_type snr : ℕ) (t0 t1 t2 t3 : ℕ) (pubkey : Bytes)
    → node_type < 16
    → (length pubkey ≡ 32) ⊎ (length pubkey ≡ 8)
    → let tag = t0 ∷ t1 ∷ t2 ∷ t3 ∷ [] in
      decode_control_payload control 0 (discover_resp_bytes node_type snr tag pubkey)
      ≡ some
          (discover_resp (adv_type_name node_type) (as_i8 snr) (hex_encode tag) (hex_encode pubkey))
unfolding decode_control_payload discover_resp_bytes
decode_resp-raw node_type snr t0 t1 t2 t3 pubkey h size =
    let low : bit_and (0x90 + node_type) 15 ≡ node_type =
      omega (arith, bit_and-nibble (0x90 + node_type) (omega arith)) in
    let high : bit_and (0x90 + node_type) 0xF0 ≡ 0x90 =
      omega (arith, bit_and-high_nibble (0x90 + node_type) (omega arith)) in
    elim size [
      | inl full ↦ rw (low, high) (ground (arith, take-eq_self 32 pubkey))
      | inr prefix ↦ rw (low, high) (ground (arith, take-eq_self 8 pubkey))
    ]

-- A discovery response of the firmware's layout is decoded to the name of its node type, the
-- signal-to-noise ratio that was written in two's complement, the tag and the key, for a full key
-- of 32 bytes and for a prefix of 8.
pub decode-discover_resp :
    (node_type : ℕ) (name : Text) (snr : ℤ) (t0 t1 t2 t3 : ℕ) (pubkey : Bytes)
    → node_type < 16
    → IsTypeName node_type name
    → FitsI8 snr
    → (length pubkey ≡ 32) ⊎ (length pubkey ≡ 8)
    → let tag = t0 ∷ t1 ∷ t2 ∷ t3 ∷ [] in
      decode_control_payload control 0 (discover_resp_bytes node_type (i8_byte snr) tag pubkey)
      ≡ some (discover_resp name snr (hex_encode tag) (hex_encode pubkey))
decode-discover_resp node_type name snr t0 t1 t2 t3 pubkey h named fits size =
    let tag = t0 ∷ t1 ∷ t2 ∷ t3 ∷ [] in
    decode_resp-raw node_type (i8_byte snr) t0 t1 t2 t3 pubkey h size
    ∙ rw (adv_type_name-IsTypeName node_type name named, as_i8-byte snr fits) refl
