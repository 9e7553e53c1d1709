-- ===== src/Core/Crypto/Codes.antt =====
-- The transport code of `calc_transport_code`: the reserved values, and the digest kept otherwise.
use fez_meshcore_controller.Prelude.{[], arith, length, refl, take, ℕ, ◌∷◌, ◌≡◌, ◌≢◌, ◌⊎◌}
use fez_meshcore_controller.Core.Hex.{Bytes, IsBytes}
use fez_meshcore_controller.Core.Crypto.{Primitives, code_of_digest, calc_transport_code}

-- What the two bytes of a code are, for the digest `d`.
pub record IsCode (d code : Bytes) : Type 0 where
  pub bytes : IsBytes code
  pub two : length code ≡ 2
  pub not_zero : code ≢ 0 ∷ 0 ∷ []
  pub not_ones : code ≢ 0xFF ∷ 0xFF ∷ []
  -- the digest's bytes, or a reserved value moved to its neighbour
  pub nudged :
      (code ≡ take 2 d)
      ⊎ ((take 2 d ≡ 0 ∷ 0 ∷ []) × (code ≡ 1 ∷ 0 ∷ []))
      ⊎ ((take 2 d ≡ 0xFF ∷ 0xFF ∷ []) × (code ≡ 0xFE ∷ 0xFF ∷ []))

code_of_digest-IsCode : (d : Bytes) → length d ≡ 32 → IsBytes d → IsCode d (code_of_digest d)
unfolding code_of_digest
code_of_digest-IsCode [] n h = absurd (omega arith)
code_of_digest-IsCode (a ∷ []) n h = absurd (omega arith)
code_of_digest-IsCode (a ∷ b ∷ rest) n h = record {
  bytes = ground arith;
  two = refl;
  not_zero = ground arith;
  not_ones = ground arith;
  nudged = ground arith;
}

-- For every key and payload the transport code is two bytes, never 00 00 nor FF FF; it is the
-- first two bytes of the HMAC unless those are reserved, and then their neighbour.
pub calc_transport_code-IsCode :
    (p : Primitives) (key : Bytes) (payload_type : ℕ) (payload : Bytes)
    → IsCode
        (p.hmac_sha256 key (payload_type ∷ payload))
        (calc_transport_code p key payload_type payload)
unfolding calc_transport_code
calc_transport_code-IsCode p key payload_type payload =
    code_of_digest-IsCode _ (p.length-hmac_sha256 key _) (p.hmac_sha256-IsBytes key _)
