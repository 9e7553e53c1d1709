-- ===== src/Core/Region/Transport.antt =====
-- A packet that is sent into a configured region is shown in it.
use fez_meshcore_controller.Prelude.{
  Bool, Bool-cases, List, Member, [], ap, arith, false, find, inl, inr, length, length-append, ltb,
  map_option, refl, some, sym, take, take-append, text_eq, text_eq_iff, ℕ, ◌++◌, ◌∙◌, ◌∷◌, ◌≡◌,
}
use fez_meshcore_controller.Core.Hex.{Bytes, IsBytes, HexDecoder, hex_encode, length-hex_encode}
use fez_meshcore_controller.Core.Crypto.{Primitives, calc_transport_code, derive_region_key}
use fez_meshcore_controller.Core.Crypto.Codes.{IsCode, calc_transport_code-IsCode}
use fez_meshcore_controller.Core.Config.{RegionConfig}
use fez_meshcore_controller.Core.Mesh.{PacketHeaderInfo, PacketLogEntry}
use fez_meshcore_controller.Core.Region.{precompute_region_keys, find_region, matching_region_name}

module _ (p : Primitives) where
  -- The code of a region for a payload.
  pub region_code : ℕ → Bytes → RegionConfig → Bytes
  region_code payload_type payload r =
      calc_transport_code p (derive_region_key p r.name) payload_type payload

  abbrev pub has_code : Bytes → ℕ → Bytes → RegionConfig → Bool
  has_code code payload_type payload r = text_eq (region_code payload_type payload r) code

  find_region-precompute :
      (code : Bytes) (payload_type : ℕ) (payload : Bytes) (regions : List RegionConfig)
      → find_region p code payload_type payload (precompute_region_keys p regions)
        ≡ map_option (λ r. r.name) (find (has_code code payload_type payload) regions)
  unfolding find_region precompute_region_keys region_code
  find_region-precompute code payload_type payload [] = refl
  find_region-precompute code payload_type payload (r ∷ regions) =
      ground (arith, find_region-precompute code payload_type payload regions)

  region_code-IsCode :
      (payload_type : ℕ) (payload : Bytes) (r : RegionConfig)
      → IsCode
          (p.hmac_sha256 (derive_region_key p r.name) (payload_type ∷ payload))
          (region_code payload_type payload r)
  unfolding region_code
  region_code-IsCode payload_type payload r =
      calc_transport_code-IsCode p (derive_region_key p r.name) payload_type payload

  code_front :
      (payload_type : ℕ) (payload rest : Bytes) (r : RegionConfig)
      → take 4 (hex_encode (region_code payload_type payload r) ++ rest)
        ≡ hex_encode (region_code payload_type payload r)
  code_front payload_type payload rest r =
      let code = region_code payload_type payload r in
      let two = (region_code-IsCode payload_type payload r).two in
      let four : length (hex_encode code) ≡ 4 = omega (arith, length-hex_encode code, two) in
      rw four at (take-append {A = ℕ} (hex_encode code) rest)

  find-has_code :
      (code : Bytes) (payload_type : ℕ) (payload : Bytes) (sent : RegionConfig)
      (regions : List RegionConfig)
      → Member sent regions
      → region_code payload_type payload sent ≡ code
      → (r : RegionConfig) × Member r regions
        × (region_code payload_type payload r ≡ code)
        × (find (has_code code payload_type payload) regions ≡ some r)
  find-has_code code payload_type payload sent [] m same = absurd m
  find-has_code code payload_type payload sent (x ∷ regions) m same =
      let is_code = text_eq_iff (region_code payload_type payload x) code in
      elim (Bool-cases (has_code code payload_type payload x)) [
        | inl hit ↦ (x, inl refl, is_code.0 hit, rw hit refl)
        | inr miss ↦
            let below : Member sent regions = elim m [
              | inl e ↦
                  absurd
                    (cc (is_code.1 (ap (region_code payload_type payload) (sym e) ∙ same), miss))
              | inr n ↦ n
            ] in
            let (r, member, coded, found) =
              find-has_code code payload_type payload sent regions below same in
            (r, inr member, coded, rw miss found)
      ]

  matching_region_name-find :
      (d : HexDecoder) (regions : List RegionConfig) (sent : RegionConfig) (entry : PacketLogEntry)
      (header : PacketHeaderInfo) (payload second : Bytes)
      → entry.header ≡ some header
      → IsBytes payload
      → entry.payload_hex ≡ hex_encode payload
      → let code = region_code header.payload_type_raw payload sent in
        header.transport_code_hex ≡ some (hex_encode code ++ second)
        → matching_region_name p d entry (precompute_region_keys p regions)
          ≡ map_option (λ r. r.name) (find (has_code code header.payload_type_raw payload) regions)
  unfolding matching_region_name
  matching_region_name-find d regions sent entry header payload second h bytes hex coded =
      let code = region_code header.payload_type_raw payload sent in
      let front = code_front header.payload_type_raw payload second sent in
      let is_code = region_code-IsCode header.payload_type_raw payload sent in
      let long : ltb (length (hex_encode code ++ second)) 4 ≡ false =
        ground
          (arith, length-append (hex_encode code) second, length-hex_encode code, is_code.two) in
      rw
        (
          h,
          coded,
          long,
          front,
          hex,
          d.decode_encode code is_code.bytes,
          d.decode_encode payload bytes,
        )
        (find_region-precompute code header.payload_type_raw payload regions)

  -- A packet that carries, before any second half, the transport code that a configured region
  -- computes for its payload is shown in a configured region that computes the same code: in that
  -- region itself, unless another one has the same two bytes.
  pub matching_region_name-region_code :
      (d : HexDecoder) (regions : List RegionConfig) (sent : RegionConfig) (entry : PacketLogEntry)
      (header : PacketHeaderInfo) (payload second : Bytes)
      → Member sent regions
      → entry.header ≡ some header
      → IsBytes payload
      → entry.payload_hex ≡ hex_encode payload
      → let code = region_code header.payload_type_raw payload sent in
        header.transport_code_hex ≡ some (hex_encode code ++ second)
        → (r : RegionConfig) × Member r regions
          × (region_code header.payload_type_raw payload r ≡ code)
          × (matching_region_name p d entry (precompute_region_keys p regions) ≡ some r.name)
  matching_region_name-region_code d regions sent entry header payload second m h bytes hex coded =
      let code = region_code header.payload_type_raw payload sent in
      let (r, member, same, found) =
        find-has_code code header.payload_type_raw payload sent regions m refl in
      (
        r,
        member,
        same,
        matching_region_name-find d regions sent entry header payload second h bytes hex coded
            ∙ ap (map_option (λ r. r.name)) found,
      )
