-- ===== src/Core/Examples/Payloads.antt =====
-- The theorems on transport codes, encryption, telemetry, regions and channels at concrete inputs.
use fez_meshcore_controller.Prelude.{
  List, Member, Option, Text, [], arith, codes, inl, inr, none, refl, replicate, some, text_eq,
  true, ℕ, ◌++◌, ◌∷◌, ◌≡◌,
}
use fez_meshcore_controller.Prelude.Int.{pos, negsuc}
use fez_meshcore_controller.Core.MqttJwt.{AuthTokenClaims}
use fez_meshcore_controller.Core.MqttJwt.Token.{IsSigned, assemble_token-IsSigned}
use fez_meshcore_controller.Core.Hex.{hex_encode}
use fez_meshcore_controller.Core.Crypto.{calc_transport_code, mac_then_decrypt}
use fez_meshcore_controller.Core.Crypto.Codes.{IsCode, calc_transport_code-IsCode}
use fez_meshcore_controller.Core.Crypto.Decrypt.{
  encrypt_then_mac, mac_then_decrypt-encrypt, IsOpened, mac_then_decrypt-IsOpened,
}
use fez_meshcore_controller.Core.Telemetry.{find_type, types, decode_telemetry}
use fez_meshcore_controller.Core.Telemetry.Fields.{Field, scalar, gps, payload_bytes, all_readings}
use fez_meshcore_controller.Core.Telemetry.RoundTrip.{decode_telemetry-payload}
use fez_meshcore_controller.Core.Hex.{IsBytes}
use fez_meshcore_controller.Core.Hex.Digits.{decoder}
use fez_meshcore_controller.Core.Config.{RegionConfig}
use fez_meshcore_controller.Core.Crypto.{group_channel_secret_and_hash}
use fez_meshcore_controller.Core.Crypto.Decrypt.{encrypt_blocks}
use fez_meshcore_controller.Core.Mesh.{PacketHeaderInfo, PacketLogEntry}
use fez_meshcore_controller.Core.Region.{precompute_region_keys, matching_region_name}
use fez_meshcore_controller.Core.Region.Transport.{region_code, matching_region_name-region_code}
use fez_meshcore_controller.Core.Channel.{
  ChannelKey, channel_key, public_channel_name, public_channel_psk, precompute_channel_keys,
  decode_group_text,
}
use fez_meshcore_controller.Core.Channel.Lossy.{utf8}
use fez_meshcore_controller.Core.Channel.Message.{group_text_bytes, decode_group_text-encrypt}
use fez_meshcore_controller.Samples.{toy_primitives, toy_encryption, toy_encoders, toy_reading}

calc_transport_code-IsCode_example :
    IsCode
      (toy_primitives.hmac_sha256 (1 ∷ 2 ∷ []) (4 ∷ 9 ∷ 9 ∷ []))
      (calc_transport_code toy_primitives (1 ∷ 2 ∷ []) 4 (9 ∷ 9 ∷ []))
calc_transport_code-IsCode_example =
    calc_transport_code-IsCode toy_primitives (1 ∷ 2 ∷ []) 4 (9 ∷ 9 ∷ [])

abbrev secret : List ℕ
secret = replicate 32 7

abbrev plaintext : List ℕ
plaintext = codes "Alice: hello mesh, this is two b"

mac_then_decrypt-encrypt_example :
    mac_then_decrypt toy_primitives secret
      (encrypt_then_mac toy_primitives toy_encryption 2 secret plaintext)
    ≡ some plaintext
mac_then_decrypt-encrypt_example =
    mac_then_decrypt-encrypt toy_primitives toy_encryption 1 secret plaintext refl

mac_then_decrypt-IsOpened_example :
    IsOpened toy_primitives secret (16 ∷ 5 ∷ 2 ∷ 1 ∷ replicate 14 3) (1 ∷ 2 ∷ replicate 14 3)
mac_then_decrypt-IsOpened_example =
    mac_then_decrypt-IsOpened toy_primitives secret (16 ∷ 5 ∷ 2 ∷ 1 ∷ replicate 14 3)
      (1 ∷ 2 ∷ replicate 14 3) (unfold mac_then_decrypt text_eq in refl)

-- A temperature of -0.5 degrees on channel 1, and a position.
abbrev fields : List Field
fields =
    scalar 1
      (record {
        code = 103;
        size = 2;
        signed = true;
        mult = 10;
        label = codes "Temperature";
        unit = 0xC2 ∷ 0xB0 ∷ codes "C";
      })
      (negsuc 4)
    ∷ gps 2 (pos 450123) (negsuc 70000) (pos 12345)
    ∷ []

decode_telemetry-payload_example :
    decode_telemetry (payload_bytes fields (0 ∷ 0 ∷ 0 ∷ [])) ≡ all_readings fields
decode_telemetry-payload_example =
    decode_telemetry-payload fields (0 ∷ [])
      ((unfold find_type types in refl, omega arith), ((omega arith, omega arith, omega arith), tt))

abbrev header_with : Text → Option Text → PacketHeaderInfo
header_with payload_type transport_code_hex = record {
  route_type = codes "TransportFlood";
  route_type_raw = 0;
  payload_type = payload_type;
  payload_type_raw = 5;
  payload_version = 0;
  hops = 1;
  path_hash_size = 1;
  path_hex = [];
  transport_code_hex = transport_code_hex;
  dest_hash_hex = none;
  src_hash_hex = none;
  channel_hash_hex = none;
  anon_req_sender_public_key_hex = none;
  advertisement = none;
  control = none;
}

abbrev entry_with : PacketHeaderInfo → Text → PacketLogEntry
entry_with h payload_hex = record {
  id = 1;
  at_unix = pos 9;
  snr = pos 0;
  rssi = negsuc 89;
  header = some h;
  payload_hex = payload_hex;
  payload_len = 3;
}

abbrev region : Text → RegionConfig
region name = record { name = name; parent = none }

abbrev regions : List RegionConfig
regions = region (codes "west") ∷ region (codes "north-west") ∷ []

-- The payload of three bytes, sent into the second region.
abbrev region_header : PacketHeaderInfo
region_header = header_with (codes "GroupText") (
    some (
      hex_encode (region_code toy_primitives 5 (1 ∷ 2 ∷ 3 ∷ []) (region (codes "north-west")))
      ++ codes "0000"))

matching_region_name-region_code_example :
    (r : RegionConfig) × Member r regions
    × (region_code toy_primitives 5 (1 ∷ 2 ∷ 3 ∷ []) r
        ≡ region_code toy_primitives 5 (1 ∷ 2 ∷ 3 ∷ []) (region (codes "north-west")))
    × (matching_region_name toy_primitives decoder
          (entry_with region_header (hex_encode (1 ∷ 2 ∷ 3 ∷ [])))
          (precompute_region_keys toy_primitives regions)
        ≡ some r.name)
matching_region_name-region_code_example =
    matching_region_name-region_code toy_primitives decoder regions (region (codes "north-west"))
      (entry_with region_header (hex_encode (1 ∷ 2 ∷ 3 ∷ []))) region_header (1 ∷ 2 ∷ 3 ∷ [])
      (codes "0000") (inr (inl refl)) refl (omega arith, (omega arith, (omega arith, tt))) refl refl

abbrev public_key : ChannelKey
public_key = channel_key toy_primitives public_channel_name public_channel_psk

-- "Hé", and zeros up to the end of the block.
abbrev chars : List ℕ
chars = 72 ∷ 233 ∷ []

abbrev sealed : List ℕ
sealed =
    encrypt_then_mac toy_primitives toy_encryption 1 public_key.secret
      (group_text_bytes 1 2 3 4 0 chars (some (replicate 7 0)))

sealed-IsBytes : IsBytes (public_key.hash ∷ sealed)
unfolding encrypt_then_mac encrypt_blocks group_text_bytes group_channel_secret_and_hash
sealed-IsBytes = ground arith

decode_group_text-encrypt_example :
    decode_group_text toy_primitives decoder
      (entry_with (header_with (codes "GroupText") none) (hex_encode (public_key.hash ∷ sealed)))
      (precompute_channel_keys toy_primitives [])
    ≡ some (record { channel_name = public_channel_name; text = utf8 chars })
unfolding precompute_channel_keys group_text_bytes
decode_group_text-encrypt_example =
    decode_group_text-encrypt toy_primitives toy_encryption decoder 0 1 2 3 4 0 chars
      (some (replicate 7 0)) [] [] [] public_key
      (entry_with (header_with (codes "GroupText") none) (hex_encode (public_key.hash ∷ sealed)))
      (header_with (codes "GroupText") none) (omega arith)
      (
        (omega arith, omega arith, inl (omega arith)),
        ((omega arith, omega arith, inl (omega arith)), tt),
      )
      refl refl tt refl refl refl sealed-IsBytes refl

abbrev claims : AuthTokenClaims
claims = record {
  public_key_hex = codes "aabb";
  iat = pos 1700000000;
  exp = pos 1700003600;
  aud = codes "mqtt.example.org";
}

assemble_token-IsSigned_example : IsSigned toy_encoders claims (171 ∷ 5 ∷ [])
assemble_token-IsSigned_example =
    assemble_token-IsSigned toy_encoders toy_reading claims (171 ∷ 5 ∷ [])
      (omega arith, (omega arith, tt))
