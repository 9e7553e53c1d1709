-- ===== src/Core/Channel/Message.antt =====
-- A message that is sent to a known channel is decoded to its text.
use fez_meshcore_controller.Prelude.{
  ==_iff, All, Bool, List, Option, Text, [], all, arith, codes, false, find_map, length, ltb, none,
  not, position, refl, some, suc, take-append, text_eq, text_eq_iff, true, unwrap_or, ℕ, ◌&&◌, ◌*◌,
  ◌++◌, ◌/◌, ◌<◌, ◌==◌, ◌∷◌, ◌≡◌,
}
use fez_meshcore_controller.Core.Hex.{Bytes, IsBytes, HexDecoder, hex_encode}
use fez_meshcore_controller.Core.Crypto.{Primitives}
use fez_meshcore_controller.Core.Crypto.Decrypt.{
  Encryption, encrypt_then_mac, mac_then_decrypt-encrypt,
}
use fez_meshcore_controller.Core.Mesh.{PacketHeaderInfo, PacketLogEntry}
use fez_meshcore_controller.Core.Channel.Lossy.{
  utf8_char, utf8, IsChar, from_utf8_lossy-utf8, utf8_char-nonzero,
}
use fez_meshcore_controller.Core.Channel.{
  ChannelKey, parse_group_text_plaintext, precompute_channel_keys, try_key, decode_group_text,
}

-- What follows the text in its last block: nothing, or a zero and more.
abbrev pub tail_bytes : Option Bytes → Bytes
tail_bytes none = []
tail_bytes (some padding) = 0 ∷ padding

-- [timestamp: 4][txt_type: 1][text][tail]
unfoldable pub group_text_bytes : ℕ → ℕ → ℕ → ℕ → ℕ → List ℕ → Option Bytes → Bytes
group_text_bytes t0 t1 t2 t3 txt_type chars tail =
    t0 ∷ t1 ∷ t2 ∷ t3 ∷ txt_type ∷ (utf8 chars ++ tail_bytes tail)

all-append : (q : ℕ → Bool) (xs ys : Bytes) → all q (xs ++ ys) ≡ (all q xs && all q ys)
all-append q [] ys = refl
all-append q (x ∷ xs) ys = ground (arith, all-append q xs ys)

utf8-nonzero : (cs : List ℕ) → All IsChar cs → all (λ b. not (b == 0)) (utf8 cs) ≡ true
utf8-nonzero [] h = refl
utf8-nonzero (c ∷ cs) h = ground (
  arith,
  all-append (λ b. not (b == 0)) (utf8_char c) (utf8 cs),
  utf8_char-nonzero c h.0,
  utf8-nonzero cs h.1,
)

-- The text ends at the first zero, or with the plaintext.
text_end :
    (text : Bytes) (tail : Option Bytes)
    → all (λ b. not (b == 0)) text ≡ true
    → let after = text ++ tail_bytes tail in
      unwrap_or (position (λ b. b == 0) after) (length after) ≡ length text
text_end [] none h = refl
text_end [] (some padding) h = refl
text_end (b ∷ text) tail h = ground (arith, h, text_end text tail)

parse-group_text_bytes :
    (t0 t1 t2 t3 txt_type : ℕ) (chars : List ℕ) (tail : Option Bytes)
    → txt_type < 4
    → All IsChar chars
    → parse_group_text_plaintext (group_text_bytes t0 t1 t2 t3 txt_type chars tail)
      ≡ some (utf8 chars)
unfolding parse_group_text_plaintext group_text_bytes
parse-group_text_bytes t0 t1 t2 t3 txt_type chars tail plain h =
    let text = utf8 chars in
    let known : (txt_type / 4 == 0) ≡ true = ground (arith, plain) in
    let long : ltb (length (t0 ∷ t1 ∷ t2 ∷ t3 ∷ txt_type ∷ (text ++ tail_bytes tail))) 5 ≡ false =
      ground arith in
    rw
      (
        long,
        known,
        text_end text tail (utf8-nonzero chars h),
        take-append text (tail_bytes tail),
        from_utf8_lossy-utf8 chars h,
      )
      refl

find_map-after :
    {A B : Type 0} (f : A → Option B) (before after : List A) (a : A) (b : B)
    → All (λ x. f x ≡ none) before
    → f a ≡ some b
    → find_map f (before ++ a ∷ after) ≡ some b
find_map-after f [] after a b h e = rw e refl
find_map-after f (x ∷ before) after a b h e = rw h.0 (find_map-after f before after a b h.1 e)

module _ (p : Primitives) (e : Encryption p) where
  try_key-encrypt :
      (n t0 t1 t2 t3 txt_type : ℕ) (chars : List ℕ) (tail : Option Bytes) (key : ChannelKey)
      → txt_type < 4
      → All IsChar chars
      → let plaintext = group_text_bytes t0 t1 t2 t3 txt_type chars tail in
        length plaintext ≡ suc n * 16
        → try_key p key.hash (encrypt_then_mac p e (suc n) key.secret plaintext) key
          ≡ some (record { channel_name = key.name; text = utf8 chars })
  unfolding try_key
  try_key-encrypt n t0 t1 t2 t3 txt_type chars tail key plain h whole =
      let plaintext = group_text_bytes t0 t1 t2 t3 txt_type chars tail in
      let same : (key.hash == key.hash) ≡ true = ground arith in
      rw
        (
          same,
          mac_then_decrypt-encrypt p e n key.secret plaintext whole,
          parse-group_text_bytes t0 t1 t2 t3 txt_type chars tail plain h,
        )
        refl

  -- A text that is sent to a channel whose key is known, as whole blocks encrypted under the
  -- channel's secret and behind the channel's hash, is decoded to the channel's name and the text,
  -- unless an earlier channel of the list decodes the payload too.
  pub decode_group_text-encrypt :
      (d : HexDecoder) (n t0 t1 t2 t3 txt_type : ℕ) (chars : List ℕ) (tail : Option Bytes)
      (names : List Text) (before after : List ChannelKey) (key : ChannelKey)
      (entry : PacketLogEntry) (header : PacketHeaderInfo)
      → txt_type < 4
      → All IsChar chars
      → let plaintext = group_text_bytes t0 t1 t2 t3 txt_type chars tail in
        let sealed = encrypt_then_mac p e (suc n) key.secret plaintext in
        length plaintext ≡ suc n * 16
        → precompute_channel_keys p names ≡ before ++ key ∷ after
        → All (λ k. try_key p key.hash sealed k ≡ none) before
        → entry.header ≡ some header
        → header.payload_type ≡ codes "GroupText"
        → header.payload_version ≡ 0
        → IsBytes (key.hash ∷ sealed)
        → entry.payload_hex ≡ hex_encode (key.hash ∷ sealed)
        → decode_group_text p d entry (precompute_channel_keys p names)
          ≡ some (record { channel_name = key.name; text = utf8 chars })
  unfolding decode_group_text
  decode_group_text-encrypt d n t0 t1 t2 t3 txt_type chars tail names before after key entry header
        plain h whole keys earlier headed typed version bytes hex =
      let sealed =
        encrypt_then_mac p e (suc n) key.secret
          (group_text_bytes t0 t1 t2 t3 txt_type chars tail) in
      let is_text : text_eq header.payload_type (codes "GroupText") ≡ true =
        (text_eq_iff _ _).1 typed in
      let is_v1 : (header.payload_version == 0) ≡ true =
        (==_iff header.payload_version 0).1 version in
      rw (headed, is_text, is_v1, hex, d.decode_encode (key.hash ∷ sealed) bytes, keys)
        (find_map-after (try_key p key.hash sealed) before after key _ earlier
          (try_key-encrypt n t0 t1 t2 t3 txt_type chars tail key plain h whole))
