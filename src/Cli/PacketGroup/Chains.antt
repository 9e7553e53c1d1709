-- ===== src/Cli/PacketGroup/Chains.antt =====
-- Each group of cli/src/tui/packet_group.rs is a chain of receptions.
use fez_meshcore_controller.Prelude.{
  All, List, Option, Option-cases, Text, [], ap, arith, codes, get_elem?, inl, inr, is_some,
  map_option, modify, none, refl, reverse, some, suc, sym, true, zero, ℕ, ◌++◌, ◌∙◌, ◌∷◌, ◌≡◌,
}
use mathlib.Core.List.{reverse_aux}
use fez_meshcore_controller.Prelude.Int.{ℤ, pos, negsuc, ◌≤ℤ◌, ◌+ℤ◌}
use fez_meshcore_controller.Prelude.Map.{lookup}
use fez_meshcore_controller.Core.Mesh.{PacketLogEntry}
use fez_meshcore_controller.Cli.PacketGroup.{
  PacketGroup, Grouping, group_key, within_window, reused, add_member, group_entry, group_all,
  group_packets, latest,
}
use fez_meshcore_controller.Cli.PacketGroup.Open.{
  stamp, latest_stamp, IsOpen, reused-some, group_entry-IsOpen,
}

-- The type of a packet's payload, with the payload, when the packet's header was decoded.
abbrev pub payload_of : PacketLogEntry → Option Text
payload_of e = elim e.header [
  | none ↦ none
  | some header ↦ some (header.payload_type ++ (codes ":" ++ e.payload_hex))
]

-- A later reception of the same text of type and payload, at most 90 seconds after the earlier.
pub record IsRelay (later earlier : PacketLogEntry) : Type 0 where
  pub keyed : is_some (payload_of later) ≡ true
  pub same_key : payload_of later ≡ payload_of earlier
  pub near : later.at_unix ≤ℤ earlier.at_unix +ℤ pos 90

abbrev pub IsChain : List PacketLogEntry → Type 0
IsChain [] = ⊥
IsChain (e ∷ []) = Unit {0}
IsChain (e ∷ d ∷ es) = IsRelay e d × IsChain (d ∷ es)

payload_of-group_key : (e : PacketLogEntry) → payload_of e ≡ group_key e
unfolding group_key
payload_of-group_key e = elim (Option-cases e.header) [
  | inl h ↦ rw h refl
  | inr (header, h) ↦ rw h refl
]

le-within_window : (a b : ℤ) → within_window a b ≡ true → a ≤ℤ b +ℤ pos 90
unfolding within_window ◌+ℤ◌
le-within_window (pos a) (pos b) h = ground (arith, h)
le-within_window (pos a) (negsuc b) h = ground (arith, h)
le-within_window (negsuc a) (pos b) h = ground (arith, h)
le-within_window (negsuc a) (negsuc b) h = ground (arith, h)

abbrev pub AreChains : List PacketGroup → Type 0
AreChains gs = All (λ g. IsChain g.members) gs

add_member-IsChain :
    (e : PacketLogEntry) (members : List PacketLogEntry) (k : Text) (last : ℤ)
    → group_key e ≡ some k
    → map_option stamp (get_elem? members 0) ≡ some (some k, last)
    → within_window e.at_unix last ≡ true
    → IsChain members
    → IsChain (e ∷ members)
add_member-IsChain e [] k last keyed at near chain = absurd chain
add_member-IsChain e (d ∷ es) k last keyed at near chain =
    let same : group_key d ≡ some k = cc at in
    let time : d.at_unix ≡ last = cc at in
    (
      record {
        keyed = ap is_some (payload_of-group_key e ∙ keyed);
        same_key = payload_of-group_key e ∙ keyed ∙ sym same ∙ sym (payload_of-group_key d);
        near =
            le-within_window e.at_unix d.at_unix (ap (λ t. within_window e.at_unix t) time ∙ near);
      },
      chain,
    )

modify-AreChains :
    (e : PacketLogEntry) (k : Text) (last : ℤ) (gs : List PacketGroup) (i : ℕ)
    → group_key e ≡ some k
    → latest_stamp gs i ≡ some (some k, last)
    → within_window e.at_unix last ≡ true
    → AreChains gs
    → AreChains (modify gs i (add_member e))
unfolding add_member latest
modify-AreChains e k last [] i keyed at near h = h
modify-AreChains e k last (g ∷ gs) zero keyed at near h =
    (add_member-IsChain e g.members k last keyed at near h.0, h.1)
modify-AreChains e k last (g ∷ gs) (suc i) keyed at near h =
    (h.0, modify-AreChains e k last gs i keyed at near h.1)

push-AreChains :
    (e : PacketLogEntry) (gs : List PacketGroup)
    → AreChains gs
    → AreChains (gs ++ record { members = e ∷ [] } ∷ [])
push-AreChains e [] h = (tt, tt)
push-AreChains e (g ∷ gs) h = (h.0, push-AreChains e gs h.1)

group_entry-AreChains :
    (g : Grouping) (e : PacketLogEntry)
    → IsOpen g
    → AreChains g.groups
    → AreChains (group_entry g e).groups
unfolding group_entry
group_entry-AreChains g e opened h = elim (Option-cases (reused g e)) [
  | inl fresh ↦ rw (group_entry, fresh) (push-AreChains e g.groups h)
  | inr ((k, o), joins) ↦
      let (keyed, at, near) = reused-some g e k o opened joins in
      rw (group_entry, joins) (modify-AreChains e k o.last_at_unix g.groups o.index keyed at near h)
]

group_all-AreChains :
    (g : Grouping) (es : List PacketLogEntry)
    → IsOpen g
    → AreChains g.groups
    → AreChains (group_all g es).groups
unfolding group_all
group_all-AreChains g [] opened h = h
group_all-AreChains g (e ∷ es) opened h =
    group_all-AreChains (group_entry g e) es (group_entry-IsOpen g e opened)
      (group_entry-AreChains g e opened h)

reverse_aux-AreChains :
    (gs acc : List PacketGroup) → AreChains gs → AreChains acc → AreChains (reverse_aux gs acc)
reverse_aux-AreChains [] acc h a = a
reverse_aux-AreChains (g ∷ gs) acc h a = reverse_aux-AreChains gs (g ∷ acc) h.1 (h.0, a)

-- Every group that the packet page shows has a member. When it has several, each has a decoded
-- header and, with the one kept before it, one text of payload type and payload, and was received
-- at most 90 seconds after it.
pub group_packets-AreChains : (packets : List PacketLogEntry) → AreChains (group_packets packets)
unfolding group_packets
group_packets-AreChains packets =
    let start : Grouping = record { groups = []; open_groups = [] } in
    let empty : IsOpen start = λ k o found. unfold lookup in cc found in
    reverse_aux-AreChains (group_all start (reverse packets)).groups []
      (group_all-AreChains start (reverse packets) empty tt) tt
