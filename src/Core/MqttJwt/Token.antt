-- ===== src/Core/MqttJwt/Token.antt =====
-- A broker's reading of a token: the parts between the dots, and what they encode.
use fez_meshcore_controller.Prelude.{
  All, List, Text, [], arith, codes, if◌then◌else◌, leb, lower_code, map, refl, some,
  to_ascii_lowercase, ℕ, ◌%◌, ◌&&◌, ◌++◌, ◌-◌, ◌/◌, ◌<◌, ◌==◌, ◌∷◌, ◌≡◌, ◌≢◌,
}
use fez_meshcore_controller.Core.Hex.{Bytes, IsBytes, hex_digit, hex_encode}
use mathlib.Core.List.{append_assoc}
use fez_meshcore_controller.Core.Mesh.Regions.{to_first_line}
use fez_meshcore_controller.Core.Json.{Encoders, Value, Fields, end, object, string, integer, get}
use fez_meshcore_controller.Core.MqttJwt.{
  AuthTokenClaims, token_header, payload, signing_input, assemble_token,
}

-- `token.split('.')`.
unfoldable pub split_dots : Text → List Text
split_dots [] = [] ∷ []
split_dots (c ∷ text) =
    let parts = split_dots text in if c == b'.' then [] ∷ parts else to_first_line c parts

-- What a reader relies on: base64 has no dot.
pub record Reading (e : Encoders) : Type 0 where
  pub base64url-dotless : (bs : Bytes) → All (λ c. c ≢ b'.') (e.base64url bs)

split_dots-append :
    (part rest : Text)
    → All (λ c. c ≢ b'.') part
    → split_dots (part ++ (b'.' ∷ rest)) ≡ part ∷ split_dots rest
unfolding split_dots
split_dots-append [] rest h = refl
split_dots-append (c ∷ part) rest h = rw (split_dots-append part rest h.1) (ground (arith, h.0))

split_dots_last : (part : Text) → All (λ c. c ≢ b'.') part → split_dots part ≡ part ∷ []
unfolding split_dots
split_dots_last [] h = refl
split_dots_last (c ∷ part) h = rw (split_dots_last part h.1) (ground (arith, h.0))

abbrev upper : ℕ → ℕ
upper c = if leb b'a' c && leb c b'z' then c - 32 else c

hex_encode-ascii : (bs : Bytes) → IsBytes bs → All (λ c. c < 128) (hex_encode bs)
unfolding hex_encode
hex_encode-ascii [] h = tt
hex_encode-ascii (b ∷ bs) h = (ground (arith, h.0), (ground (arith, h.0), hex_encode-ascii bs h.1))

upper-dotless : (bs : Bytes) → IsBytes bs → All (λ c. c ≢ b'.') (map upper (hex_encode bs))
unfolding hex_encode
upper-dotless [] h = tt
upper-dotless (b ∷ bs) h = (ground (arith, h.0), (ground (arith, h.0), upper-dotless bs h.1))

lower_upper_digit : (d : ℕ) → d < 16 → lower_code (upper (hex_digit d)) ≡ hex_digit d
unfolding lower_code
lower_upper_digit d h = ground arith

lower-upper :
    (bs : Bytes) → IsBytes bs → to_ascii_lowercase (map upper (hex_encode bs)) ≡ hex_encode bs
unfolding hex_encode to_ascii_lowercase
lower-upper [] h = refl
lower-upper (b ∷ bs) h =
    rw
      (
        lower_upper_digit (b / 16) (omega (arith, h.0)),
        lower_upper_digit (b % 16) (omega arith),
        lower-upper bs h.1,
      )
      refl

abbrev fields_of : Value → Fields
fields_of (object fs) = fs
fields_of v = end

abbrev pub signature_part : Encoders → Bytes → Text
signature_part e signature = e.to_uppercase (hex_encode signature)

-- The header and the claims, by their names.
abbrev pub IsHeader : Fields → Type 0
IsHeader fs =
    (get (codes "alg") fs ≡ some (string (codes "Ed25519")))
    × (get (codes "typ") fs ≡ some (string (codes "JWT")))

abbrev pub HasClaims : Encoders → AuthTokenClaims → Fields → Type 0
HasClaims e claims fs =
    (get (codes "publicKey") fs ≡ some (string (e.to_uppercase claims.public_key_hex)))
    × (get (codes "iat") fs ≡ some (integer claims.iat))
    × (get (codes "exp") fs ≡ some (integer claims.exp))
    × (get (codes "aud") fs ≡ some (string claims.aud))

abbrev part : Encoders → Fields → Text
part e fs = e.base64url (e.to_vec (object fs))

-- A token is read at its dots in three parts: the encodings of an object with the algorithm and the
-- type, and of one with the key in upper case, the two times and the audience, and the signature.
abbrev pub IsSigned : Encoders → AuthTokenClaims → Bytes → Type 0
IsSigned e claims signature =
    (hs : Fields) × (fs : Fields) × IsHeader hs
    × HasClaims e claims fs
    × (split_dots (signing_input e claims) ≡ part e hs ∷ part e fs ∷ [])
    × (split_dots (assemble_token e (signing_input e claims) signature)
        ≡ part e hs ∷ part e fs ∷ signature_part e signature ∷ [])
    × (to_ascii_lowercase (signature_part e signature) ≡ hex_encode signature)

-- A token is read in three parts: the encodings of an object that names the algorithm and the type,
-- and of one that has each claim under its name, and the signature in hexadecimal, in upper case.
-- What is signed is read in the first two of them. The signature is bytes, and base64 has no dot.
pub assemble_token-IsSigned :
    (e : Encoders) (r : Reading e) (claims : AuthTokenClaims) (signature : Bytes)
    → IsBytes signature
    → IsSigned e claims signature
unfolding assemble_token signing_input payload get
assemble_token-IsSigned e r claims signature h =
    let first = e.base64url (e.to_vec token_header) in
    let second = e.base64url (e.to_vec (payload e claims)) in
    let raised : signature_part e signature ≡ map upper (hex_encode signature) =
      e.to_uppercase-ascii (hex_encode signature) (hex_encode-ascii signature h) in
    let last : All (λ c. c ≢ b'.') (signature_part e signature) =
      rw raised (upper-dotless signature h) in
    (
      fields_of token_header,
      fields_of (payload e claims),
      (refl, refl),
      (refl, refl, refl, refl),
      rw
          (
            split_dots-append first second (r.base64url-dotless _),
            split_dots_last second (r.base64url-dotless _),
          )
          refl,
      rw
          (
            append_assoc first (b'.' ∷ second) (b'.' ∷ signature_part e signature),
            split_dots-append first (second ++ (b'.' ∷ signature_part e signature))
                (r.base64url-dotless _),
            split_dots-append second (signature_part e signature) (r.base64url-dotless _),
            split_dots_last (signature_part e signature) last,
          )
          refl,
      rw raised (lower-upper signature h),
    )
