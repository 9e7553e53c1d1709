-- ===== src/Cli/PacketGroup/Open.antt =====
-- The open groups of the loop in cli/src/tui/packet_group.rs: each is in the list, as it was kept.
use fez_meshcore_controller.Prelude.{
  List, Option, Option-cases, Text, [], ap, arith, bind-some, guard, guard-some, if◌then◌else◌, inl,
  inr, length, map_option, modify, none, refl, some, suc, text_eq_iff, true, zero, ℕ, ◌++◌, ◌==◌,
  ◌>>◌, ◌∙◌, ◌∷◌, ◌≡◌,
}
use fez_meshcore_controller.Prelude.Int.{ℤ}
use fez_meshcore_controller.Prelude.Map.{lookup, insert, lookup-insert}
use fez_meshcore_controller.Core.Mesh.{PacketLogEntry}
use fez_meshcore_controller.Cli.PacketGroup.{
  PacketGroup, OpenGroup, Grouping, group_key, within_window, reused, add_member, open_new,
  group_entry, group_all, latest,
}

-- What the latest member of a group shows: its key and its time.
abbrev pub Stamp : Type 0
Stamp = Option Text × ℤ

abbrev pub stamp : PacketLogEntry → Stamp
stamp e = (group_key e, e.at_unix)

abbrev pub latest_stamp : List PacketGroup → ℕ → Option Stamp
latest_stamp [] i = none
latest_stamp (g ∷ gs) zero = map_option stamp (latest g)
latest_stamp (g ∷ gs) (suc i) = latest_stamp gs i

pub latest_stamp-modify :
    (e : PacketLogEntry) (gs : List PacketGroup) (i j : ℕ) (s : Stamp)
    → latest_stamp gs i ≡ some s
    → latest_stamp (modify gs i (add_member e)) j
      ≡ (if i == j then some (stamp e) else latest_stamp gs j)
unfolding add_member latest
latest_stamp-modify e [] i j s h = cc
latest_stamp-modify e (g ∷ gs) zero zero s h = refl
latest_stamp-modify e (g ∷ gs) zero (suc j) s h = ground arith
latest_stamp-modify e (g ∷ gs) (suc i) zero s h = ground arith
latest_stamp-modify e (g ∷ gs) (suc i) (suc j) s h =
    ground (arith, latest_stamp-modify e gs i j s h)

pub latest_stamp-push :
    (e : PacketLogEntry) (gs : List PacketGroup) (j : ℕ)
    → latest_stamp (gs ++ record { members = e ∷ [] } ∷ []) j
      ≡ (if length gs == j then some (stamp e) else latest_stamp gs j)
unfolding latest
latest_stamp-push e [] zero = refl
latest_stamp-push e [] (suc j) = ground arith
latest_stamp-push e (g ∷ gs) zero = ground arith
latest_stamp-push e (g ∷ gs) (suc j) = ground (arith, latest_stamp-push e gs j)

pub latest_stamp-past :
    (gs : List PacketGroup) (s : Stamp) → latest_stamp gs (length gs) ≡ some s → ⊥
latest_stamp-past [] s h = cc
latest_stamp-past (g ∷ gs) s h = latest_stamp-past gs s h

-- Each open group is in the list, and its latest member has the key and the time that are kept.
abbrev pub IsOpen : Grouping → Type 0
IsOpen g =
    (k : Text) (o : OpenGroup)
    → lookup k g.open_groups ≡ some o
    → latest_stamp g.groups o.index ≡ some (some k, o.last_at_unix)

-- A reception that joins a group, with the group's latest stamp.
pub reused-some :
    (g : Grouping) (e : PacketLogEntry) (k : Text) (o : OpenGroup)
    → IsOpen g
    → reused g e ≡ some (k, o)
    → (group_key e ≡ some k)
      × (latest_stamp g.groups o.index ≡ some (some k, o.last_at_unix))
      × (within_window e.at_unix o.last_at_unix ≡ true)
unfolding reused
reused-some g e k o h r =
    let (k', keyed, r1) = bind-some _ _ _ r in
    let rest : OpenGroup → Option (Text × OpenGroup) =
      λ x. guard (within_window e.at_unix x.last_at_unix) >> some (k', x) in
    let (o', looked, r2) = bind-some (lookup k' g.open_groups) rest (k, o) r1 in
    let (within, last) =
      guard-some (within_window e.at_unix o'.last_at_unix) (some (k', o')) (k, o) r2 in
    let same_key : k' ≡ k = cc last in
    let same_open : o' ≡ o = cc last in
    let found : lookup k g.open_groups ≡ some o = cc (looked, same_key, same_open) in
    let near : within_window e.at_unix o.last_at_unix ≡ true = rw same_open at within in
    (keyed ∙ ap some same_key, h k o found, near)

joined-IsOpen :
    (g : Grouping) (e : PacketLogEntry) (k : Text) (o : OpenGroup)
    → IsOpen g
    → reused g e ≡ some (k, o)
    → (j : Text) (p : OpenGroup)
    → lookup j (insert k (record { index = o.index; last_at_unix = e.at_unix }) g.open_groups)
      ≡ some p
    → latest_stamp (modify g.groups o.index (add_member e)) p.index ≡ some (some j, p.last_at_unix)
joined-IsOpen g e k o h joins j p found =
    let (keyed, at, within) = reused-some g e k o h joins in
    let touched : OpenGroup = record { index = o.index; last_at_unix = e.at_unix } in
    ground (
      arith,
      lookup-insert k j touched g.open_groups,
      text_eq_iff k j,
      latest_stamp-modify e g.groups o.index p.index _ at,
      h j p,
      at,
      keyed,
    )

pushed-IsOpen :
    (g : Grouping) (e : PacketLogEntry)
    → IsOpen g
    → (j : Text) (p : OpenGroup) → lookup j (open_new g e) ≡ some p
    → latest_stamp (g.groups ++ record { members = e ∷ [] } ∷ []) p.index
      ≡ some (some j, p.last_at_unix)
unfolding open_new
pushed-IsOpen g e h j p found = elim (Option-cases (group_key e)) [
  | inl unkeyed ↦ ground (
    arith,
    unkeyed,
    found,
    h j p,
    latest_stamp-push e g.groups p.index,
    latest_stamp-past g.groups (some j, p.last_at_unix),
  )
  | inr (k, keyed) ↦
      let opened : OpenGroup = record { index = length g.groups; last_at_unix = e.at_unix } in
      ground (
        arith,
        keyed,
        found,
        h j p,
        latest_stamp-push e g.groups p.index,
        latest_stamp-past g.groups (some j, p.last_at_unix),
        lookup-insert k j opened g.open_groups,
        text_eq_iff k j,
      )
]

pub group_entry-IsOpen : (g : Grouping) (e : PacketLogEntry) → IsOpen g → IsOpen (group_entry g e)
unfolding group_entry open_new
group_entry-IsOpen g e h j p found = elim (Option-cases (reused g e)) [
  | inl fresh ↦
      let pushed : lookup j (open_new g e) ≡ some p = rw (group_entry, fresh) at found in
      rw (group_entry, fresh) (pushed-IsOpen g e h j p pushed)
  | inr ((k, o), joins) ↦
      let moved : lookup j
            (insert k (record { index = o.index; last_at_unix = e.at_unix }) g.open_groups)
          ≡ some p =
        rw (group_entry, joins) at found in
      rw (group_entry, joins) (joined-IsOpen g e k o h joins j p moved)
]

pub group_all-IsOpen :
    (g : Grouping) (es : List PacketLogEntry) → IsOpen g → IsOpen (group_all g es)
unfolding group_all
group_all-IsOpen g [] h = h
group_all-IsOpen g (e ∷ es) h = group_all-IsOpen (group_entry g e) es (group_entry-IsOpen g e h)
