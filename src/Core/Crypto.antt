-- ===== src/Core/Crypto.antt =====
-- core/src/meshcore_crypto.rs. SHA-256, HMAC-SHA-256 and the AES-128 block are those of the crates
-- sha2, hmac and aes: a parameter, with the sizes that the program relies on.
pub mod Codes
pub mod Decrypt
use fez_meshcore_controller.Prelude.{
  ℕ, zero, suc, ◌+◌, ◌-◌, ◌*◌, ◌/◌, ◌%◌, ◌<◌, min, ◌≡◌, not, ◌||◌, List, [], ◌∷◌, ◌++◌, Option,
  none, some, ◌==◌, leb, if◌then◌else◌, Text, codes, text_eq, starts_with, length, take, drop,
  get_or, replicate, is_empty,
}
use fez_meshcore_controller.Core.Hex.{Bytes, IsBytes}

pub record Primitives : Type 0 where
  pub sha256 : Bytes → Bytes
  -- the key, then the message
  pub hmac_sha256 : Bytes → Bytes → Bytes
  -- the key, then the block
  pub decrypt_block : Bytes → Bytes → Bytes
  pub length-sha256 : (m : Bytes) → length (sha256 m) ≡ 32
  pub sha256-IsBytes : (m : Bytes) → IsBytes (sha256 m)
  pub length-hmac_sha256 : (k m : Bytes) → length (hmac_sha256 k m) ≡ 32
  pub hmac_sha256-IsBytes : (k m : Bytes) → IsBytes (hmac_sha256 k m)
  pub length-decrypt_block : (k b : Bytes) → length b ≡ 16 → length (decrypt_block k b) ≡ 16

abbrev pub cipher_mac_size : ℕ
cipher_mac_size = 2

abbrev pub cipher_key_size : ℕ
cipher_key_size = 16

-- The firmware reserves 0x0000 and 0xFFFF.
unfoldable pub avoid_reserved_codes : ℕ → ℕ
avoid_reserved_codes code = if code == 0 then 1 else if code == 0xFFFF then 0xFFFE else code

-- The first two bytes of a digest through `u16::from_le_bytes`, the nudge and `to_le_bytes`.
unfoldable pub code_of_digest : Bytes → Bytes
unfolding avoid_reserved_codes
code_of_digest digest =
    let code = avoid_reserved_codes (get_or digest 0 0 + 256 * get_or digest 1 0) in
    (code % 256) ∷ (code / 256) ∷ []

module _ (p : Primitives) where
  unfoldable pub derive_region_key : Text → Bytes
  derive_region_key name = take 16 (p.sha256 name)

  unfoldable pub hashtag_channel_key : Text → Bytes
  unfolding derive_region_key
  hashtag_channel_key name =
      if starts_with name (codes "#")
      then derive_region_key name
      else derive_region_key (codes "#" ++ name)

  unfoldable pub calc_transport_code : Bytes → ℕ → Bytes → Bytes
  calc_transport_code key payload_type_raw payload =
      code_of_digest (p.hmac_sha256 key (payload_type_raw ∷ payload))

  -- The secret, zero-padded to 32 bytes, and the first byte of the hash.
  unfoldable pub group_channel_secret_and_hash : Bytes → Bytes × ℕ
  group_channel_secret_and_hash psk =
      let len = min (length psk) 32 in
      (take len psk ++ replicate (32 - len) 0, get_or (p.sha256 (take len psk)) 0 0)

  -- `chunks_exact_mut`: as many whole blocks as given, and the rest as it is.
  unfoldable pub decrypt_blocks : ℕ → Bytes → Bytes → Bytes
  decrypt_blocks zero key text = text
  decrypt_blocks (suc n) key text =
      p.decrypt_block key (take cipher_key_size text)
      ++ decrypt_blocks n key (drop cipher_key_size text)

  unfoldable pub mac_then_decrypt : Bytes → Bytes → Option Bytes
  unfolding decrypt_blocks
  mac_then_decrypt secret mac_and_ciphertext =
      if leb (length mac_and_ciphertext) cipher_mac_size
      then none
      else let mac = take cipher_mac_size mac_and_ciphertext in
        let ciphertext = drop cipher_mac_size mac_and_ciphertext in
        if is_empty ciphertext || not (length ciphertext % cipher_key_size == 0)
        then none
        else if not (text_eq (take cipher_mac_size (p.hmac_sha256 secret ciphertext)) mac)
        then none
        else some (
            decrypt_blocks (length ciphertext / cipher_key_size) (take cipher_key_size secret)
              ciphertext)
