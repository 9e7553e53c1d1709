-- ===== src/Core/Mesh/Client/Declared.antt =====
-- The contact that is declared for a managed repeater.
use fez_meshcore_controller.Prelude.{
  Bool-cases, List, Member, Option-cases, Text, [], any-Member, arith, false, inl, inr, length,
  lower_code, refl, some, starts_with, suc, take, to_ascii_lowercase, true, zero, ℕ, ◌%◌, ◌/◌, ◌==◌,
  ◌∷◌, ◌≡◌, ◌⊎◌,
}
use fez_meshcore_controller.Core.Config.{ManagedRepeater, matches}
use fez_meshcore_controller.Core.Hex.{Bytes, HexDecoder, hex_digit, hex_encode}
use fez_meshcore_controller.Core.Mesh.{ContactDto}
use fez_meshcore_controller.Core.Mesh.Client.{MeshCore, attempt, declare_contact, declared}
use fez_meshcore_controller.Core.Mesh.Contacts.{contacts_to_prune}
use fez_meshcore_controller.Core.Mesh.Contacts.Pruning.{mem-contacts_to_prune, status-none_iff}
use fez_meshcore_controller.Core.Mesh.Conversions.{contact_dto}
use fez_meshcore_controller.Core.Mesh.Source.{Contact}
use fez_meshcore_controller.Core.Task.{is_ok}

-- The digits that a decoder reads are those that `hex_encode` prints, but for their case.
abbrev pub ReadsDigits : HexDecoder → Type 0
ReadsDigits d =
    (t : Text) (bs : Bytes) → d.hex_decode t ≡ some bs → to_ascii_lowercase t ≡ hex_encode bs

lower-hex_digit : (d : ℕ) → lower_code (hex_digit d) ≡ hex_digit d
unfolding lower_code
lower-hex_digit d = ground arith

lower-hex_encode : (bs : Bytes) → to_ascii_lowercase (hex_encode bs) ≡ hex_encode bs
unfolding to_ascii_lowercase hex_encode
lower-hex_encode [] = refl
lower-hex_encode (b ∷ bs) =
    rw (lower-hex_digit (b / 16), lower-hex_digit (b % 16), lower-hex_encode bs) refl

starts_with-hex_take :
    (n : ℕ) (bs : Bytes) → starts_with (hex_encode bs) (hex_encode (take n bs)) ≡ true
unfolding starts_with hex_encode
starts_with-hex_take zero bs = ground arith
starts_with-hex_take (suc n) [] = refl
starts_with-hex_take (suc n) (b ∷ bs) = ground (arith, starts_with-hex_take n bs)

module _ (m : MeshCore) (reads : ReadsDigits m.hex) where
  pub matches-declared :
      (r : ManagedRepeater) (key : Bytes)
      → m.hex.hex_decode r.public_key_hex ≡ some key
      → matches r (contact_dto m.contact (declared r.name key)).public_key_prefix_hex ≡ true
  unfolding matches contact_dto
  matches-declared r key h =
      rw
        (
          reads r.public_key_hex key h,
          m.contact.prefix-key (declared r.name key),
          lower-hex_encode (take 6 key),
        )
        (starts_with-hex_take 6 key)

  not_pruned :
      (r : ManagedRepeater) (key : Bytes) (contacts : List ContactDto) (rs : List ManagedRepeater)
      → Member r rs
      → m.hex.hex_decode r.public_key_hex ≡ some key
      → ¬ Member (contact_dto m.contact (declared r.name key)) (contacts_to_prune contacts rs)
  not_pruned r key contacts rs known h pruned =
      let c = contact_dto m.contact (declared r.name key) in
      let unmatched =
        (status-none_iff rs c.public_key_prefix_hex).0
          ((mem-contacts_to_prune c contacts rs).0 pruned).1 in
      let matched =
        any-Member (λ s. matches s c.public_key_prefix_hex) r rs known (matches-declared r key h) in
      absurd (cc)

  -- Nothing is sent and there is an error, or what is done is that a contact with a whole key and
  -- the repeater's name is added, which is not pruned for the repeaters.
  abbrev pub IsKept : ManagedRepeater → List ContactDto → List ManagedRepeater → m.World → Type 0
  IsKept r contacts rs w =
      ((is_ok (declare_contact m r w).0 ≡ false) × ((declare_contact m r w).1 ≡ w))
      ⊎ ((c : Contact) × (length c.public_key ≡ 32)
          × (c.adv_name ≡ r.name)
          × (declare_contact m r w ≡ attempt m (m.add_contact c) w)
          × ¬ Member (contact_dto m.contact c) (contacts_to_prune contacts rs))

  -- To declare a managed repeater either adds nothing and gives an error, or adds a contact with
  -- its name and a key of 32 bytes, which is never among the contacts to prune for a list of
  -- managed repeaters that has the repeater.
  pub declare_contact-IsKept :
      (r : ManagedRepeater) (contacts : List ContactDto) (rs : List ManagedRepeater) (w : m.World)
      → Member r rs
      → IsKept r contacts rs w
  unfolding declare_contact
  declare_contact-IsKept r contacts rs w known =
      elim (Option-cases (m.hex.hex_decode r.public_key_hex)) [
        | inl e ↦ rw e (inl (refl, refl))
        | inr (key, e) ↦ elim (Bool-cases (length key == 32)) [
          | inl whole ↦
              rw (e, whole)
                (inr (
                  declared r.name key,
                  ground (arith, whole),
                  refl,
                  refl,
                  not_pruned r key contacts rs known e,
                ))
          | inr short ↦ rw (e, short) (inl (refl, refl))
        ]
      ]
