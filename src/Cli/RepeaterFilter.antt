-- ===== src/Cli/RepeaterFilter.antt =====
-- cli/src/tui/repeater_filter.rs: what the panel of repeaters shows, and in which order.
pub mod Order
pub mod Placed
use fez_meshcore_controller.Prelude.{
  Bool, List, Option, Ordering, Text, compare, false, filter, guard, if◌then◌else◌, ltb, none, not,
  some, true, unwrap_or, ℕ, ◌&&◌, ◌>>=◌, ◌>>◌, ◌||◌,
}
use fez_meshcore_controller.Prelude.Int.{ℤ, is_zero}
use fez_meshcore_controller.Prelude.Sorting.{then_with, cmp_ℤ, cmp_text, sort_by}
use fez_meshcore_controller.Core.Config.{RepeaterStatus, managed, known, supervised}
use fez_meshcore_controller.Core.Mesh.{ContactDto}
use fez_meshcore_controller.Cli.Format.{strip_flag_emoji}

pub data RepeaterGroup : Type 0 where
  managed_group supervised_group known_group discovered_group : RepeaterGroup

unfoldable pub repeater_group : ContactDto → RepeaterGroup
repeater_group c = elim c.repeater_status [
  | some managed ↦ managed_group
  | some supervised ↦ supervised_group
  | some known ↦ known_group
  | none ↦ if c.registered then known_group else discovered_group
]

pub data RepeaterSort : Type 0 where
  last_heard by_name by_distance : RepeaterSort

pub record RepeaterFilter : Type 0 where
  pub show_managed : Bool
  pub show_supervised : Bool
  pub show_known : Bool
  pub show_discovered : Bool
  pub sort : RepeaterSort
  pub group_by_type : Bool

abbrev pub default_filter : RepeaterFilter
default_filter = record {
  show_managed = true;
  show_supervised = true;
  show_known = true;
  show_discovered = true;
  sort = last_heard;
  group_by_type = false;
}

unfoldable pub shows : RepeaterFilter → RepeaterGroup → Bool
shows f managed_group = f.show_managed
shows f supervised_group = f.show_supervised
shows f known_group = f.show_known
shows f discovered_group = f.show_discovered

unfoldable pub is_filtering : RepeaterFilter → Bool
is_filtering f = not (f.show_managed && f.show_supervised && f.show_known && f.show_discovered)

-- The derived order of the groups: that of their declarations.
abbrev pub group_rank : RepeaterGroup → ℕ
group_rank managed_group = 0
group_rank supervised_group = 1
group_rank known_group = 2
group_rank discovered_group = 3

-- What the order uses of the standard library's floating point and Unicode tables. `haversine_km`
-- is the bits of the distance: a double that is not negative, and of two such the greater has the
-- greater bits. Bits above those of infinity are not a number.
pub record Display : Type 0 where
  pub to_lowercase : Text → Text
  pub haversine_km : ℤ × ℤ → ℤ × ℤ → ℕ

abbrev pub infinity_bits : ℕ
infinity_bits = 9218868437227405312

-- That of the standard library on such doubles.
unfoldable pub partial_cmp : ℕ → ℕ → Option Ordering
partial_cmp a b = if ltb infinity_bits a || ltb infinity_bits b then none else some (compare a b)

-- A known distance before an unknown one.
unfoldable pub cmp_distance : Option ℕ → Option ℕ → Ordering
unfolding partial_cmp
cmp_distance (some a) (some b) = unwrap_or (partial_cmp a b) Ordering.eq
cmp_distance (some a) none = Ordering.lt
cmp_distance none (some b) = Ordering.gt
cmp_distance none none = Ordering.eq

unfoldable pub is_unknown_position : ℤ × ℤ → Bool
is_unknown_position pos = is_zero pos.0 && is_zero pos.1

module _ (v : Display) where
  unfoldable pub distance_from_observer : ContactDto → Option (ℤ × ℤ) → Option ℕ
  unfolding is_unknown_position
  distance_from_observer c observer_position = do
    observer ← observer_position
    guard (not (is_unknown_position observer))
    guard (not (is_unknown_position (c.lat, c.lon)))
    some (v.haversine_km observer (c.lat, c.lon))

  unfoldable pub compare_by_sort :
      ContactDto → ContactDto → RepeaterSort → Option (ℤ × ℤ) → Ordering
  unfolding strip_flag_emoji cmp_text cmp_distance distance_from_observer
  compare_by_sort a b last_heard observer_position = compare b.last_advert_unix a.last_advert_unix
  compare_by_sort a b by_name observer_position =
      cmp_text (v.to_lowercase (strip_flag_emoji a.name)) (v.to_lowercase (strip_flag_emoji b.name))
  compare_by_sort a b by_distance observer_position =
      cmp_distance (distance_from_observer a observer_position)
        (distance_from_observer b observer_position)

  -- The comparison that the list is sorted by.
  unfoldable pub repeater_cmp : RepeaterFilter → Option (ℤ × ℤ) → ContactDto → ContactDto → Ordering
  unfolding compare_by_sort repeater_group
  repeater_cmp filter observer_position a b =
      let group_ordering =
        if filter.group_by_type
        then compare (group_rank (repeater_group a)) (group_rank (repeater_group b))
        else Ordering.eq in
      then_with group_ordering (compare_by_sort a b filter.sort observer_position)

  unfoldable pub sort_repeaters :
      List ContactDto → RepeaterFilter → Option (ℤ × ℤ) → List ContactDto
  unfolding repeater_cmp sort_by
  sort_repeaters contacts filter observer_position =
      sort_by (repeater_cmp filter observer_position) contacts
