-- ===== src/Cli/RepeaterFilter/Order.antt =====
-- That the panel's comparison orders the repeaters, and what sorting by it gives.
use fez_meshcore_controller.Prelude.{
  Bool, List, Option, Ordering, Text, arith, compare, false, guard, if◌then◌else◌, none, not, refl,
  some, true, ℕ, ◌>>◌, ◌≡◌, ◌≤◌,
}
use mathlib.Core.List.{Perm}
use fez_meshcore_controller.Prelude.Int.{ℤ}
use fez_meshcore_controller.Prelude.Sorting.{Chains, swap, IsOrder, IsSorted}
use fez_meshcore_controller.Prelude.Sorting.Laws.{
  then_with-swaps, then_with-Chains, compare-Chains, cmp_text-IsOrder, sort_by-Perm,
  sort_by-IsSorted,
}
use fez_meshcore_controller.Core.Mesh.{ContactDto}
use fez_meshcore_controller.Cli.Format.{strip_flag_emoji}
use fez_meshcore_controller.Cli.RepeaterFilter.{
  RepeaterFilter, RepeaterSort, last_heard, by_name, by_distance, Display, infinity_bits,
  partial_cmp, cmp_distance, distance_from_observer, is_unknown_position, compare_by_sort,
  repeater_cmp, repeater_group, group_rank, sort_repeaters,
}

-- The groups in the order that they are declared in.
unfoldable pub cmp_group : ContactDto → ContactDto → Ordering
cmp_group a b = compare (group_rank (repeater_group a)) (group_rank (repeater_group b))

module _ (v : Display) where
  -- The text that a contact is placed by in the order of names.
  abbrev name_key : ContactDto → Text
  name_key c = v.to_lowercase (strip_flag_emoji c.name)

  -- Each distance is a number.
  unfoldable pub GivesNumbers : Type 0
  GivesNumbers = (a b : ℤ × ℤ) → v.haversine_km a b ≤ infinity_bits

  unfoldable pub IsFinite : Option ℕ → Type 0
  IsFinite none = Unit
  IsFinite (some d) = d ≤ infinity_bits

  IsFinite-guard : (t : Bool) (o : Option ℕ) → IsFinite o → IsFinite (guard t >> o)
  unfolding IsFinite
  IsFinite-guard true o h = h
  IsFinite-guard false o h = tt

  pub distance_from_observer-IsFinite :
      (c : ContactDto) (observer : Option (ℤ × ℤ))
      → GivesNumbers
      → IsFinite (distance_from_observer v c observer)
  unfolding distance_from_observer IsFinite GivesNumbers
  distance_from_observer-IsFinite c none numbers = tt
  distance_from_observer-IsFinite c (some p) numbers =
      IsFinite-guard (not (is_unknown_position p)) _
        (IsFinite-guard (not (is_unknown_position (c.lat, c.lon))) _ (numbers p (c.lat, c.lon)))

  module _ (numbers : GivesNumbers) (observer : Option (ℤ × ℤ)) where
    distance-swaps :
        (a b : Option ℕ) → IsFinite a → IsFinite b → cmp_distance b a ≡ swap (cmp_distance a b)
    unfolding cmp_distance partial_cmp IsFinite
    distance-swaps a b h k = ground arith

    distance-Chains :
        (a b d : Option ℕ)
        → IsFinite a
        → IsFinite b
        → IsFinite d
        → Chains (cmp_distance a b) (cmp_distance b d) (cmp_distance a d)
    unfolding cmp_distance partial_cmp IsFinite
    distance-Chains a b d h k l = ground arith

    compare_by_sort-swaps :
        (sort : RepeaterSort) (a b : ContactDto)
        → compare_by_sort v b a sort observer ≡ swap (compare_by_sort v a b sort observer)
    unfolding compare_by_sort
    compare_by_sort-swaps last_heard a b = ground arith
    compare_by_sort-swaps by_name a b = cmp_text-IsOrder.swaps (name_key a) (name_key b)
    compare_by_sort-swaps by_distance a b =
        distance-swaps _ _ (distance_from_observer-IsFinite a observer numbers)
          (distance_from_observer-IsFinite b observer numbers)

    compare_by_sort-Chains :
        (sort : RepeaterSort) (a b d : ContactDto)
        → Chains
            (compare_by_sort v a b sort observer)
            (compare_by_sort v b d sort observer)
            (compare_by_sort v a d sort observer)
    unfolding compare_by_sort
    compare_by_sort-Chains last_heard a b d = ground arith
    compare_by_sort-Chains by_name a b d =
        cmp_text-IsOrder.chains (name_key a) (name_key b) (name_key d)
    compare_by_sort-Chains by_distance a b d =
        distance-Chains _ _ _ (distance_from_observer-IsFinite a observer numbers)
          (distance_from_observer-IsFinite b observer numbers)
          (distance_from_observer-IsFinite d observer numbers)

    group-swaps :
        (grouped : Bool) (a b : ContactDto)
        → (if grouped then cmp_group b a else Ordering.eq)
          ≡ swap (if grouped then cmp_group a b else Ordering.eq)
    unfolding cmp_group
    group-swaps true a b = ground arith
    group-swaps false a b = refl

    group-Chains :
        (grouped : Bool) (a b d : ContactDto)
        → Chains
            (if grouped then cmp_group a b else Ordering.eq)
            (if grouped then cmp_group b d else Ordering.eq)
            (if grouped then cmp_group a d else Ordering.eq)
    unfolding cmp_group
    group-Chains true a b d =
        compare-Chains (group_rank (repeater_group a)) (group_rank (repeater_group b))
          (group_rank (repeater_group d))
    group-Chains false a b d = refl

    -- Whatever the filter, the panel's comparison is a total preorder, as the standard library's
    -- sort asks for, if each distance is a number.
    pub repeater_cmp-IsOrder : (f : RepeaterFilter) → IsOrder (repeater_cmp v f observer)
    unfolding repeater_cmp cmp_group
    repeater_cmp-IsOrder f = record {
      swaps = λ a b.
          then_with-swaps _ _ _ _ (group-swaps f.group_by_type a b)
            (compare_by_sort-swaps f.sort a b);
      chains = λ a b d.
          then_with-Chains _ _ _ _ _ _ (group-Chains f.group_by_type a b d)
            (compare_by_sort-Chains f.sort a b d);
    }

    -- A permutation, sorted by the comparison.
    pub sort_repeaters-IsSorted :
        (contacts : List ContactDto) (f : RepeaterFilter)
        → Perm (sort_repeaters v contacts f observer) contacts
          × IsSorted (repeater_cmp v f observer) (sort_repeaters v contacts f observer)
    unfolding sort_repeaters
    sort_repeaters-IsSorted contacts f = (
      sort_by-Perm (repeater_cmp v f observer) contacts,
      sort_by-IsSorted (repeater_cmp v f observer) (repeater_cmp-IsOrder f) contacts,
    )
