-- ===== src/Core/Crypto/Decrypt.antt =====
-- `mac_then_decrypt` against the firmware's encrypt-then-MAC: a round trip, and what is accepted.
use fez_meshcore_controller.Prelude.{
  [], ap, arith, drop, drop-append, false, leb, length, length-append, length-drop, length-take,
  refl, some, suc, sym, take, take-append, take-append-drop, text_eq_iff, true, zero, ℕ, ◌%◌, ◌*◌,
  ◌++◌, ◌+◌, ◌/◌, ◌<◌, ◌==◌, ◌∙◌, ◌∷◌, ◌≡◌,
}
use fez_meshcore_controller.Core.Hex.{Bytes}
use fez_meshcore_controller.Core.Crypto.{Primitives, decrypt_blocks, mac_then_decrypt}

-- The other half of AES-128, of which the decryption is the inverse.
pub record Encryption (p : Primitives) : Type 0 where
  pub encrypt_block : Bytes → Bytes → Bytes
  pub length-encrypt_block : (k b : Bytes) → length b ≡ 16 → length (encrypt_block k b) ≡ 16
  pub decrypt-encrypt : (k b : Bytes) → length b ≡ 16 → p.decrypt_block k (encrypt_block k b) ≡ b

block_at_front :
    (c rest : Bytes) → length c ≡ 16 → (take 16 (c ++ rest) ≡ c) × (drop 16 (c ++ rest) ≡ rest)
block_at_front c rest h = (
  ap (λ k. take k (c ++ rest)) (sym h) ∙ take-append c rest,
  ap (λ k. drop k (c ++ rest)) (sym h) ∙ drop-append c rest,
)

module _ (p : Primitives) where
  -- A payload with the right MAC over whole blocks is decrypted.
  accepted :
      (n : ℕ) (secret mac ciphertext : Bytes)
      → length mac ≡ 2
      → length ciphertext ≡ suc n * 16
      → take 2 (p.hmac_sha256 secret ciphertext) ≡ mac
      → mac_then_decrypt p secret (mac ++ ciphertext)
        ≡ some (decrypt_blocks p (suc n) (take 16 secret) ciphertext)
  unfolding mac_then_decrypt
  accepted n secret [] ciphertext two whole same = absurd (omega arith)
  accepted n secret (a ∷ []) ciphertext two whole same = absurd (omega arith)
  accepted n secret (a ∷ b ∷ c ∷ mac) ciphertext two whole same = absurd (omega arith)
  accepted n secret (a ∷ b ∷ []) [] two whole same = absurd (omega arith)
  accepted n secret (a ∷ b ∷ []) (c ∷ rest) two whole same =
      let blocks : length (c ∷ rest) / 16 ≡ suc n = omega arith in
      let exact : length (c ∷ rest) % 16 ≡ 0 = omega arith in
      let same_mac = (text_eq_iff _ _).1 same in
      let long : leb (length (a ∷ b ∷ c ∷ rest)) 2 ≡ false = ground arith in
      let divides : (length (c ∷ rest) % 16 == 0) ≡ true = ground arith in
      rw (long, divides, same_mac, blocks)

  length-decrypt_blocks :
      (n : ℕ) (key text : Bytes)
      → length text ≡ n * 16
      → length (decrypt_blocks p n key text) ≡ length text
  unfolding decrypt_blocks
  length-decrypt_blocks zero key text h = refl
  length-decrypt_blocks (suc n) key text h = omega (
    arith,
    length-append (p.decrypt_block key (take 16 text)) (decrypt_blocks p n key (drop 16 text)),
    p.length-decrypt_block key (take 16 text) (omega (arith, length-take 16 text)),
    length-drop 16 text,
    length-decrypt_blocks n key (drop 16 text) (omega (arith, length-drop 16 text)),
  )

module _ (p : Primitives) (e : Encryption p) where
  -- `Utils::encrypt` of the firmware, on whole blocks.
  unfoldable pub encrypt_blocks : ℕ → Bytes → Bytes → Bytes
  encrypt_blocks zero key text = []
  encrypt_blocks (suc n) key text =
      e.encrypt_block key (take 16 text) ++ encrypt_blocks n key (drop 16 text)

  -- The payload that the firmware sends for `n` blocks of plaintext.
  unfoldable pub encrypt_then_mac : ℕ → Bytes → Bytes → Bytes
  unfolding encrypt_blocks
  encrypt_then_mac n secret plaintext =
      let ciphertext = encrypt_blocks n (take 16 secret) plaintext in
      take 2 (p.hmac_sha256 secret ciphertext) ++ ciphertext

  length-encrypt_blocks :
      (n : ℕ) (key text : Bytes)
      → length text ≡ n * 16
      → length (encrypt_blocks n key text) ≡ n * 16
  unfolding encrypt_blocks
  length-encrypt_blocks zero key text h = refl
  length-encrypt_blocks (suc n) key text h = omega (
    arith,
    length-append (e.encrypt_block key (take 16 text)) (encrypt_blocks n key (drop 16 text)),
    e.length-encrypt_block key (take 16 text) (omega (arith, length-take 16 text)),
    length-encrypt_blocks n key (drop 16 text) (omega (arith, length-drop 16 text)),
  )

  decrypt-encrypt_blocks :
      (n : ℕ) (key text : Bytes)
      → length text ≡ n * 16
      → decrypt_blocks p n key (encrypt_blocks n key text) ≡ text
  unfolding decrypt_blocks encrypt_blocks
  decrypt-encrypt_blocks zero key [] h = refl
  decrypt-encrypt_blocks zero key (b ∷ text) h = absurd (omega arith)
  decrypt-encrypt_blocks (suc n) key text h =
      let block = e.encrypt_block key (take 16 text) in
      let rest = encrypt_blocks n key (drop 16 text) in
      let short : length (take 16 text) ≡ 16 = omega (arith, length-take 16 text) in
      let front = block_at_front block rest (e.length-encrypt_block key (take 16 text) short) in
      let below =
        decrypt-encrypt_blocks n key (drop 16 text) (omega (arith, length-drop 16 text)) in
      rw (front.0, front.1, e.decrypt-encrypt key (take 16 text) short, below)
        (take-append-drop 16 text)

  -- What the firmware encrypts under a secret is decrypted under it: the MAC is accepted and the
  -- plaintext comes back, for every number of whole blocks but none.
  pub mac_then_decrypt-encrypt :
      (n : ℕ) (secret plaintext : Bytes)
      → length plaintext ≡ suc n * 16
      → mac_then_decrypt p secret (encrypt_then_mac (suc n) secret plaintext) ≡ some plaintext
  unfolding mac_then_decrypt encrypt_then_mac
  mac_then_decrypt-encrypt n secret plaintext h =
      let ciphertext = encrypt_blocks (suc n) (take 16 secret) plaintext in
      let two : length (take 2 (p.hmac_sha256 secret ciphertext)) ≡ 2 = omega (
        arith,
        length-take 2 (p.hmac_sha256 secret ciphertext),
        p.length-hmac_sha256 secret ciphertext,
      ) in
      accepted p n secret (take 2 (p.hmac_sha256 secret ciphertext)) ciphertext two
        (length-encrypt_blocks (suc n) (take 16 secret) plaintext h) refl
      ∙ ap some (decrypt-encrypt_blocks (suc n) (take 16 secret) plaintext h)

-- What a plaintext says of the payload it came from.
pub record IsOpened (p : Primitives) (secret payload plaintext : Bytes) : Type 0 where
  pub authentic : take 2 (p.hmac_sha256 secret (drop 2 payload)) ≡ take 2 payload
  pub size : length payload ≡ length plaintext + 2
  pub some_block : 0 < length plaintext
  pub whole_blocks : length plaintext % 16 ≡ 0

-- A payload that is decrypted begins with the two bytes of its MAC under the secret, and the
-- plaintext is the rest in length: at least one AES block, and whole blocks.
pub mac_then_decrypt-IsOpened :
    (p : Primitives) (secret payload plaintext : Bytes)
    → mac_then_decrypt p secret payload ≡ some plaintext
    → IsOpened p secret payload plaintext
unfolding mac_then_decrypt
mac_then_decrypt-IsOpened p secret [] plaintext h = ground arith
mac_then_decrypt-IsOpened p secret (a ∷ []) plaintext h = ground arith
mac_then_decrypt-IsOpened p secret (a ∷ b ∷ []) plaintext h = ground arith
mac_then_decrypt-IsOpened p secret (a ∷ b ∷ c ∷ rest) plaintext h =
    let mac = take 2 (p.hmac_sha256 secret (c ∷ rest)) in
    let sized = length-decrypt_blocks p (length (c ∷ rest) / 16) (take 16 secret) (c ∷ rest) in
    record {
      authentic = ground (arith, text_eq_iff mac (a ∷ b ∷ []));
      size = ground (arith, sized);
      some_block = ground (arith, sized);
      whole_blocks = ground (arith, sized);
    }
