-- ===== src/Core/MqttJwt.antt =====
-- core/src/mqtt_jwt.rs: the token that a node signs for a broker.
pub mod Token
use fez_meshcore_controller.Prelude.{Text, codes, ◌++◌, ◌∷◌}
use fez_meshcore_controller.Prelude.Int.{ℤ}
use fez_meshcore_controller.Core.Hex.{Bytes, hex_encode}
use fez_meshcore_controller.Core.Json.{Encoders, Value, integer, string, object, end, field}

pub record AuthTokenClaims : Type 0 where
  pub public_key_hex : Text
  pub iat : ℤ
  pub exp : ℤ
  pub aud : Text

-- `Header` and `Payload`, as they are serialized.
abbrev pub token_header : Value
token_header = object (
    field (codes "alg") (string (codes "Ed25519")) (field (codes "typ") (string (codes "JWT")) end))

unfoldable pub payload : Encoders → AuthTokenClaims → Value
payload e claims = object (
    field (codes "publicKey") (string (e.to_uppercase claims.public_key_hex)) (
      field (codes "iat") (integer claims.iat)
        (field (codes "exp") (integer claims.exp) (field (codes "aud") (string claims.aud) end))))

unfoldable pub signing_input : Encoders → AuthTokenClaims → Text
unfolding payload
signing_input e claims =
    e.base64url (e.to_vec token_header) ++ (b'.' ∷ e.base64url (e.to_vec (payload e claims)))

unfoldable pub assemble_token : Encoders → Text → Bytes → Text
unfolding hex_encode
assemble_token e signing_input signature =
    signing_input ++ (b'.' ∷ e.to_uppercase (hex_encode signature))
