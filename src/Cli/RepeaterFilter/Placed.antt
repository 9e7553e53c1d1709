-- ===== src/Cli/RepeaterFilter/Placed.antt =====
-- In which order the panel shows its repeaters.
use fez_meshcore_controller.Prelude.{
  All, Bool, List, Option, Text, [], arith, compare, false, if◌then◌else◌, inl, inr, none, refl,
  some, suc, true, zero, ℕ, ◌<◌, ◌∷◌, ◌≡◌, ◌≤◌, ◌⊎◌,
}
use Prim.Native.Nat.{Ordering}
use mathlib.Core.List.{Perm}
use fez_meshcore_controller.Prelude.Int.{ℤ, pos, negsuc}
use fez_meshcore_controller.Prelude.Sorting.{IsSorted, IsBelow, is_gt, cmp_text, then_with}
use fez_meshcore_controller.Core.Config.{RepeaterStatus, managed, known, supervised}
use fez_meshcore_controller.Core.Mesh.{ContactDto}
use fez_meshcore_controller.Cli.Format.{strip_flag_emoji}
use fez_meshcore_controller.Cli.RepeaterFilter.{
  RepeaterFilter, RepeaterSort, last_heard, by_name, by_distance, Display, cmp_distance,
  partial_cmp, distance_from_observer, is_unknown_position, compare_by_sort, repeater_cmp,
  repeater_group, group_rank, sort_repeaters,
}
use fez_meshcore_controller.Cli.RepeaterFilter.Order.{
  GivesNumbers, IsFinite, distance_from_observer-IsFinite, sort_repeaters-IsSorted,
}

-- Latitude and longitude 0 stand for a position that is not known.
abbrev pub is_at_origin : ℤ × ℤ → Bool
is_at_origin (pos zero, pos zero) = true
is_at_origin p = false

-- The alphabetical order of bytes.
abbrev pub IsLeText : Text → Text → Type 0
IsLeText [] t = Unit
IsLeText (a ∷ s) [] = ⊥
IsLeText (a ∷ s) (b ∷ t) = (a < b) ⊎ ((a ≡ b) × IsLeText s t)

-- A known distance before a longer one, and before an unknown one.
abbrev pub IsNearer : Option ℕ → Option ℕ → Type 0
IsNearer (some a) (some b) = a ≤ b
IsNearer (some a) none = Unit
IsNearer none (some b) = ⊥
IsNearer none none = Unit

-- Managed, supervised, known, and overheard only.
abbrev pub tier_of : Option RepeaterStatus → Bool → ℕ
tier_of (some managed) registered = 0
tier_of (some supervised) registered = 1
tier_of (some known) registered = 2
tier_of none true = 2
tier_of none false = 3

abbrev pub tier : ContactDto → ℕ
tier c = tier_of c.repeater_status c.registered

cmp_text-IsLeText : (s t : Text) → is_gt (cmp_text s t) ≡ false → IsLeText s t
unfolding cmp_text
cmp_text-IsLeText [] t h = tt
cmp_text-IsLeText (a ∷ s) [] h = absurd (cc)
cmp_text-IsLeText (a ∷ s) (b ∷ t) h = ground (arith, h, cmp_text-IsLeText s t)

group_rank-tier : (c : ContactDto) → group_rank (repeater_group c) ≡ tier c
unfolding repeater_group
group_rank-tier c = ground arith

then_with-cases :
    (a b : ℕ) (o : Ordering)
    → is_gt (then_with (compare a b) o) ≡ false
    → (a < b) ⊎ ((a ≡ b) × (is_gt o ≡ false))
then_with-cases a b o h = ground (arith, h)

module _ (v : Display) (f : RepeaterFilter) (observer : Option (ℤ × ℤ)) where
  -- The distance of two positions that are known.
  abbrev pub distance_of : Option (ℤ × ℤ) → ContactDto → Option ℕ
  distance_of none c = none
  distance_of (some p) c =
      if is_at_origin p
      then none
      else if is_at_origin (c.lat, c.lon)
      then none
      else some (v.haversine_km p (c.lat, c.lon))

  -- The first comes before the second: the latest heard first, in the order of the names without
  -- flags and case, or the nearest to the observer first.
  abbrev pub IsEarlier : RepeaterSort → ContactDto → ContactDto → Type 0
  IsEarlier last_heard a b = b.last_advert_unix ≤ a.last_advert_unix
  IsEarlier by_name a b =
      IsLeText (v.to_lowercase (strip_flag_emoji a.name)) (v.to_lowercase (strip_flag_emoji b.name))
  IsEarlier by_distance a b = IsNearer (distance_of observer a) (distance_of observer b)

  abbrev pub IsPlaced : Bool → ContactDto → ContactDto → Type 0
  IsPlaced true a b = (tier a < tier b) ⊎ ((tier a ≡ tier b) × IsEarlier f.sort a b)
  IsPlaced false a b = IsEarlier f.sort a b

  -- Each repeater is placed before each later one.
  abbrev pub AreOrdered : List ContactDto → Type 0
  AreOrdered [] = Unit
  AreOrdered (c ∷ cs) = All (IsPlaced f.group_by_type c) cs × AreOrdered cs

  unknown-at_origin : (q : ℤ × ℤ) → is_unknown_position q ≡ is_at_origin q
  unfolding is_unknown_position
  unknown-at_origin (pos zero, pos zero) = ground arith
  unknown-at_origin (pos zero, pos (suc n)) = ground arith
  unknown-at_origin (pos zero, negsuc n) = ground arith
  unknown-at_origin (pos (suc n), z) = ground arith
  unknown-at_origin (negsuc n, z) = ground arith

  distance-of :
      (o : Option (ℤ × ℤ)) (c : ContactDto) → distance_from_observer v c o ≡ distance_of o c
  unfolding distance_from_observer
  distance-of none c = refl
  distance-of (some p) c = rw (unknown-at_origin p, unknown-at_origin (c.lat, c.lon)) (ground arith)

  distance-IsNearer :
      (a b : Option ℕ)
      → IsFinite v a
      → IsFinite v b
      → is_gt (cmp_distance a b) ≡ false
      → IsNearer a b
  unfolding cmp_distance partial_cmp IsFinite
  distance-IsNearer (some a) (some b) k l h = ground (arith, k, l, h)
  distance-IsNearer (some a) none k l h = tt
  distance-IsNearer none (some b) k l h = absurd (cc)
  distance-IsNearer none none k l h = tt

  module _ (numbers : GivesNumbers v) where
    compare_by_sort-IsEarlier :
        (sort : RepeaterSort) (a b : ContactDto)
        → is_gt (compare_by_sort v a b sort observer) ≡ false
        → IsEarlier sort a b
    unfolding compare_by_sort
    compare_by_sort-IsEarlier last_heard a b h = ground (arith, h)
    compare_by_sort-IsEarlier by_name a b h = cmp_text-IsLeText _ _ h
    compare_by_sort-IsEarlier by_distance a b h =
        rw (← distance-of observer a, ← distance-of observer b)
          (distance-IsNearer _ _ (distance_from_observer-IsFinite v a observer numbers)
            (distance_from_observer-IsFinite v b observer numbers) h)

    grouped-IsPlaced :
        (grouped : Bool) (a b : ContactDto)
        → is_gt (
            then_with
              (if grouped
                then compare (group_rank (repeater_group a)) (group_rank (repeater_group b))
                else Ordering.eq)
              (compare_by_sort v a b f.sort observer))
          ≡ false
        → IsPlaced grouped a b
    grouped-IsPlaced true a b h =
        elim (then_with-cases (group_rank (repeater_group a)) (group_rank (repeater_group b)) _ h) [
          | inl less ↦ inl (omega (arith, less, group_rank-tier a, group_rank-tier b))
          | inr (same, k) ↦ inr (
            omega (arith, same, group_rank-tier a, group_rank-tier b),
            compare_by_sort-IsEarlier f.sort a b k,
          )
        ]
    grouped-IsPlaced false a b h = compare_by_sort-IsEarlier f.sort a b h

    IsBelow-IsPlaced :
        (c : ContactDto) (cs : List ContactDto)
        → IsBelow (repeater_cmp v f observer) c cs
        → All (IsPlaced f.group_by_type c) cs
    unfolding repeater_cmp
    IsBelow-IsPlaced c [] h = tt
    IsBelow-IsPlaced c (d ∷ cs) h =
        (grouped-IsPlaced f.group_by_type c d h.0, IsBelow-IsPlaced c cs h.1)

    IsSorted-ordered :
        (cs : List ContactDto) → IsSorted (repeater_cmp v f observer) cs → AreOrdered cs
    IsSorted-ordered [] h = tt
    IsSorted-ordered (c ∷ cs) h = (IsBelow-IsPlaced c cs h.0, IsSorted-ordered cs h.1)

    -- The panel shows the repeaters that it is given, each once, each placed before each later one:
    -- when it groups, the managed before the supervised, these before the known, and these before
    -- those overheard only; within a group, or without groups, by the time that they were last
    -- heard, the latest first, by name, or by distance, the nearest first and the unknown last. Each
    -- distance is a number.
    pub sort_repeaters_ordered :
        (contacts : List ContactDto)
        → Perm (sort_repeaters v contacts f observer) contacts
          × AreOrdered (sort_repeaters v contacts f observer)
    sort_repeaters_ordered contacts =
        let sorted = sort_repeaters-IsSorted v numbers observer contacts f in
        (sorted.0, IsSorted-ordered (sort_repeaters v contacts f observer) sorted.1)
