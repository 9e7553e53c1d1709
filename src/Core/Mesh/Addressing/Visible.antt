-- ===== src/Core/Mesh/Addressing/Visible.antt =====
-- What a packet shows of its addresses.
use fez_meshcore_controller.Prelude.{arith, none, ℕ, ◌≡◌, ◌≢◌, ◌⊎◌}
use fez_meshcore_controller.Core.Hex.{Bytes}
use fez_meshcore_controller.Core.Mesh.Source.{PayloadType}
use fez_meshcore_controller.Core.Mesh.Addressing.{
  extract_dest_src_hashes, extract_channel_hash, extract_anon_req_sender_public_key,
}

-- The addresses of one payload, together.
pub record IsAddressed (t : PayloadType) (version : ℕ) (payload : Bytes) : Type 0 where
  -- a channel's hash never comes with a node's
  pub channel_alone :
      (extract_channel_hash t version payload ≡ none)
      ⊎ (extract_dest_src_hashes t version payload ≡ (none, none))
  -- a source hash comes with a destination hash
  pub source_after_dest :
      ((extract_dest_src_hashes t version payload).1 ≡ none)
      ⊎ ((extract_dest_src_hashes t version payload).0 ≢ none)
  -- a sender's public key comes with a destination hash and no source hash
  pub key_for_source :
      (extract_anon_req_sender_public_key t version payload ≡ none)
      ⊎ (((extract_dest_src_hashes t version payload).0 ≢ none)
          × ((extract_dest_src_hashes t version payload).1 ≡ none))
  -- a payload of another version shows nothing
  pub other_version :
      (version ≡ 0)
      ⊎ ((extract_dest_src_hashes t version payload ≡ (none, none))
          × (extract_channel_hash t version payload ≡ none)
          × (extract_anon_req_sender_public_key t version payload ≡ none))

-- For every payload type, version and payload: a channel hash excludes node hashes, a source hash
-- comes with a destination hash, an anonymous sender's key stands in place of a source hash, and a
-- version other than 0 shows no address at all.
pub IsAddressed-all :
    (t : PayloadType) (version : ℕ) (payload : Bytes) → IsAddressed t version payload
unfolding extract_dest_src_hashes extract_channel_hash extract_anon_req_sender_public_key
IsAddressed-all t version payload = record {
  channel_alone = ground arith;
  source_after_dest = ground arith;
  key_for_source = ground arith;
  other_version = ground arith;
}
