-- ===== src/Cli/PacketGroup/Partition.antt =====
-- Each reception is in exactly one group (cli/src/tui/packet_group.rs).
use fez_meshcore_controller.Prelude.{
  List, Option-cases, [], inl, inr, modify, reverse, some, suc, zero, ℕ, ◌++◌, ◌∷◌, ◌≡◌,
}
use mathlib.Core.List.Perm
use mathlib.Core.List.{
  Perm, perm_middle, perm_append_comm, append_assoc, append-nil, reverse_aux, reverse_perm,
}
use fez_meshcore_controller.Prelude.Map.{lookup}
use fez_meshcore_controller.Core.Mesh.{PacketLogEntry}
use fez_meshcore_controller.Cli.PacketGroup.{
  PacketGroup, Grouping, reused, add_member, group_entry, group_all, group_packets,
}
use fez_meshcore_controller.Cli.PacketGroup.Open.{
  Stamp, latest_stamp, IsOpen, reused-some, group_entry-IsOpen,
}

abbrev pub all_members : List PacketGroup → List PacketLogEntry
all_members [] = []
all_members (g ∷ gs) = g.members ++ all_members gs

modify-Perm :
    (e : PacketLogEntry) (gs : List PacketGroup) (i : ℕ) (s : Stamp)
    → latest_stamp gs i ≡ some s
    → Perm (all_members (modify gs i (add_member e))) (e ∷ all_members gs)
unfolding add_member
modify-Perm e [] i s h = cc
modify-Perm e (g ∷ gs) zero s h = Perm.refl (e ∷ (g.members ++ all_members gs))
modify-Perm e (g ∷ gs) (suc i) s h =
    Perm.trans (Perm.append_left g.members (modify-Perm e gs i s h))
      (perm_middle g.members (all_members gs))

push-Perm :
    (e : PacketLogEntry) (gs : List PacketGroup)
    → Perm (all_members (gs ++ record { members = e ∷ [] } ∷ [])) (e ∷ all_members gs)
push-Perm e [] = Perm.refl (e ∷ [])
push-Perm e (g ∷ gs) =
    Perm.trans (Perm.append_left g.members (push-Perm e gs))
      (perm_middle g.members (all_members gs))

group_entry-Perm :
    (g : Grouping) (e : PacketLogEntry)
    → IsOpen g
    → Perm (all_members (group_entry g e).groups) (e ∷ all_members g.groups)
unfolding group_entry
group_entry-Perm g e opened = elim (Option-cases (reused g e)) [
  | inl fresh ↦ rw (group_entry, fresh) (push-Perm e g.groups)
  | inr ((k, o), joins) ↦
      let (keyed, at, near) = reused-some g e k o opened joins in
      rw (group_entry, joins) (modify-Perm e g.groups o.index _ at)
]

group_all-Perm :
    (g : Grouping) (es : List PacketLogEntry)
    → IsOpen g
    → Perm (all_members (group_all g es).groups) (es ++ all_members g.groups)
unfolding group_all
group_all-Perm g [] opened = Perm.refl (all_members g.groups)
group_all-Perm g (e ∷ es) opened =
    Perm.trans (group_all-Perm (group_entry g e) es (group_entry-IsOpen g e opened)) (
      Perm.trans (Perm.append_left es (group_entry-Perm g e opened))
        (perm_middle es (all_members g.groups)))

reverse_aux-Perm :
    (gs acc : List PacketGroup)
    → Perm (all_members (reverse_aux gs acc)) (all_members gs ++ all_members acc)
reverse_aux-Perm [] acc = Perm.refl (all_members acc)
reverse_aux-Perm (g ∷ gs) acc =
    let moved : Perm (all_members gs ++ (g.members ++ all_members acc))
        ((g.members ++ all_members gs) ++ all_members acc) =
      rw (append_assoc (all_members gs) g.members (all_members acc)) at
        (Perm.append_right (all_members acc) (perm_append_comm (all_members gs) g.members)) in
    Perm.trans (reverse_aux-Perm gs (g ∷ acc)) moved

-- The groups that the packet page shows have between them exactly the packets of the log, each as
-- often as it is there: grouping loses and doubles none.
pub group_packets-Perm :
    (packets : List PacketLogEntry) → Perm (all_members (group_packets packets)) packets
unfolding group_packets
group_packets-Perm packets =
    let start : Grouping = record { groups = []; open_groups = [] } in
    let empty : IsOpen start = λ k o found. unfold lookup in cc found in
    let gs = (group_all start (reverse packets)).groups in
    let turned : Perm (all_members (reverse_aux gs [])) (all_members gs) =
      rw (append-nil (all_members gs)) at (reverse_aux-Perm gs []) in
    let grouped : Perm (all_members gs) (reverse packets) =
      rw (append-nil (reverse packets)) at (group_all-Perm start (reverse packets) empty) in
    Perm.trans turned (Perm.trans grouped (reverse_perm packets))
