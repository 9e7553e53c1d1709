-- ===== src/Core/Hex.antt =====
-- `hex_encode` of core/src/mesh.rs. Its inverse is `hex_decode` of the crate meshcore-rs, which the
-- clients take as a parameter.
pub mod Digits
use fez_meshcore_controller.Prelude.{
  ℕ, ◌+◌, ◌*◌, ◌/◌, ◌%◌, ◌<◌, ◌≡◌, refl, ap, List, [], ◌∷◌, ◌++◌, Option, some, arith, ltb,
  if◌then◌else◌, Text, All, length,
}

-- A `Vec<u8>` or `&[u8]`.
abbrev pub Bytes : Type 0
Bytes = List ℕ

abbrev pub IsBytes : Bytes → Type 0
IsBytes = All (λ b. b < 256)

-- A digit of `{:x}`.
abbrev pub hex_digit : ℕ → ℕ
hex_digit d = if ltb d 10 then d + 48 else d + 87

unfoldable pub hex_encode : Bytes → Text
hex_encode [] = []
hex_encode (b ∷ bs) = hex_digit (b / 16) ∷ hex_digit (b % 16) ∷ hex_encode bs

-- `hex_decode` of meshcore-rs, with what the program relies on: it reads back what `hex_encode`
-- prints.
pub record HexDecoder : Type 0 where
  pub hex_decode : Text → Option Bytes
  pub decode_encode : (bs : Bytes) → IsBytes bs → hex_decode (hex_encode bs) ≡ some bs

pub hex_encode-append : (xs ys : Bytes) → hex_encode (xs ++ ys) ≡ hex_encode xs ++ hex_encode ys
unfolding hex_encode
hex_encode-append [] ys = refl
hex_encode-append (b ∷ xs) ys =
    ap (λ t. hex_digit (b / 16) ∷ hex_digit (b % 16) ∷ t) (hex_encode-append xs ys)

pub length-hex_encode : (bs : Bytes) → length (hex_encode bs) ≡ 2 * length bs
unfolding hex_encode
length-hex_encode [] = refl
length-hex_encode (b ∷ bs) = omega (arith, length-hex_encode bs)
