-- ===== src/Core/Channel.antt =====
-- core/src/channel.rs: group texts of the channels whose keys are known.
pub mod Lossy
pub mod Message
use fez_meshcore_controller.Prelude.{
  List, Option, Text, [], codes, drop, find_map, get_or, guard, if◌then◌else◌, length, ltb, map,
  none, not, position, some, take, text_eq, unwrap_or, ℕ, ◌/◌, ◌==◌, ◌>>=◌, ◌>>◌, ◌||◌, ◌∷◌,
}
use fez_meshcore_controller.Core.Hex.{Bytes, HexDecoder}
use fez_meshcore_controller.Core.Crypto.{
  Primitives, group_channel_secret_and_hash, hashtag_channel_key, mac_then_decrypt,
}
use fez_meshcore_controller.Core.Mesh.{PacketHeaderInfo, PacketLogEntry}
use fez_meshcore_controller.Core.Channel.Lossy.{from_utf8_lossy}

abbrev pub public_channel_name : Text
public_channel_name = codes "Public"

abbrev pub public_channel_psk : Bytes
public_channel_psk =
    0x8b ∷ 0x33 ∷ 0x87 ∷ 0xe9 ∷ 0xc5 ∷ 0xcd ∷ 0xea ∷ 0x6a ∷ 0xc9 ∷ 0xe5 ∷ 0xed ∷ 0xba ∷ 0xa1 ∷ 0x15
    ∷ 0xcd ∷ 0x72 ∷ []

pub record DecodedChannelText : Type 0 where
  pub channel_name : Text
  pub text : Text

-- (name, secret, hash)
pub record ChannelKey : Type 0 where
  pub name : Text
  pub secret : Bytes
  pub hash : ℕ

unfoldable pub parse_group_text_plaintext : Bytes → Option Text
unfolding from_utf8_lossy
parse_group_text_plaintext plaintext =
    if ltb (length plaintext) 5
    then none
    else if not (get_or plaintext 4 0 / 4 == 0)
    then none
    else let after = drop 5 plaintext in
      let text_end = unwrap_or (position (λ b. b == 0) after) (length after) in
      some (from_utf8_lossy (take text_end after))

-- `split_first`.
abbrev pub split_first : Bytes → Option (ℕ × Bytes)
split_first [] = none
split_first (b ∷ bytes) = some (b, bytes)

module _ (p : Primitives) where
  abbrev pub channel_key : Text → Bytes → ChannelKey
  channel_key name psk =
      let (secret, hash) = group_channel_secret_and_hash p psk in
      record { name = name; secret = secret; hash = hash }

  unfoldable pub precompute_channel_keys : List Text → List ChannelKey
  unfolding hashtag_channel_key group_channel_secret_and_hash
  precompute_channel_keys hashtag_channels =
      channel_key public_channel_name public_channel_psk
      ∷ map (λ name. channel_key name (hashtag_channel_key p name)) hashtag_channels

  -- The closure of the search: the text under one candidate key.
  unfoldable pub try_key : ℕ → Bytes → ChannelKey → Option DecodedChannelText
  unfolding mac_then_decrypt parse_group_text_plaintext
  try_key channel_hash mac_and_ciphertext key = do
    guard (channel_hash == key.hash)
    plaintext ← mac_then_decrypt p key.secret mac_and_ciphertext
    text ← parse_group_text_plaintext plaintext
    some (record { channel_name = key.name; text = text })

  module _ (d : HexDecoder) where
    unfoldable pub decode_group_text : PacketLogEntry → List ChannelKey → Option DecodedChannelText
    unfolding try_key text_eq
    decode_group_text entry channel_keys = do
      header ← entry.header
      guard (
          not (
            not (text_eq header.payload_type (codes "GroupText"))
            || not (header.payload_version == 0)))
      payload ← d.hex_decode entry.payload_hex
      parts ← split_first payload
      find_map (try_key parts.0 parts.1) channel_keys
