-- ===== src/Core/Hex/Digits.antt =====
-- A decoder of hexadecimal text, to show that a `HexDecoder` exists and to run the examples.
use fez_meshcore_controller.Prelude.{
  Option, Option-cases, Text, [], arith, if◌then◌else◌, inl, inr, leb, lower_code, none, refl, some,
  to_ascii_lowercase, ℕ, ◌%◌, ◌&&◌, ◌*◌, ◌+◌, ◌-◌, ◌/◌, ◌<◌, ◌>>=◌, ◌∷◌, ◌≡◌,
}
use fez_meshcore_controller.Core.Hex.{Bytes, IsBytes, hex_digit, hex_encode, HexDecoder}

unfoldable pub digit_value : ℕ → Option ℕ
digit_value c =
    if leb 48 c && leb c 57
    then some (c - 48)
    else if leb 97 c && leb c 102
    then some (c - 87)
    else if leb 65 c && leb c 70
    then some (c - 55)
    else none

unfoldable pub decode : Text → Option Bytes
unfolding digit_value
decode [] = some []
decode (h ∷ []) = none
decode (h ∷ l ∷ t) = do
  a ← digit_value h
  b ← digit_value l
  rest ← decode t
  some ((a * 16 + b) ∷ rest)

digit_value-hex_digit : (d : ℕ) → d < 16 → digit_value (hex_digit d) ≡ some d
unfolding digit_value
digit_value-hex_digit d h = ground arith

pub decode-hex_encode : (bs : Bytes) → IsBytes bs → decode (hex_encode bs) ≡ some bs
unfolding hex_encode decode
decode-hex_encode [] h = refl
decode-hex_encode (b ∷ bs) h =
    ground
      (arith, digit_value-hex_digit (b / 16), digit_value-hex_digit (b % 16), decode-hex_encode bs)

abbrev pub decoder : HexDecoder
decoder = record { hex_decode = decode; decode_encode = decode-hex_encode }

digit_value-lower : (c d : ℕ) → digit_value c ≡ some d → (d < 16) × (lower_code c ≡ hex_digit d)
unfolding lower_code digit_value
digit_value-lower c d h = ground arith

hex_digits : (x y : ℕ) → x < 16 → y < 16 → ((x * 16 + y) / 16 ≡ x) × ((x * 16 + y) % 16 ≡ y)
hex_digits x y h l = (omega (arith, h, l), omega (arith, h, l))

-- What is read is what `hex_encode` prints, but for the case of the digits.
pub decode-reads :
    (t : Text) (bs : Bytes) → decode t ≡ some bs → to_ascii_lowercase t ≡ hex_encode bs
unfolding decode to_ascii_lowercase hex_encode
decode-reads [] bs h = ground arith
decode-reads (a ∷ []) bs h = ground arith
decode-reads (a ∷ b ∷ t) bs h = elim (Option-cases (digit_value a)) [
  | inl e ↦ ground (arith, e)
  | inr (x, e) ↦ elim (Option-cases (digit_value b)) [
    | inl d ↦ ground (arith, e, d)
    | inr (y, d) ↦ elim (Option-cases (decode t)) [
      | inl r ↦ ground (arith, e, d, r)
      | inr (rest, r) ↦
          let first = digit_value-lower a x e in
          let second = digit_value-lower b y d in
          let digits = hex_digits x y first.0 second.0 in
          let same : bs ≡ (x * 16 + y) ∷ rest = ground (arith, e, d, r) in
          rw (same, digits.0, digits.1, first.1, second.1, decode-reads t rest r) refl
    ]
  ]
]
