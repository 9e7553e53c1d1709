-- ===== src/Core/Region/Tree.antt =====
-- `flatten_region_tree` of core/src/region.rs: the configured regions in the order they are shown.
pub mod Placed
pub mod Fuel
use fez_meshcore_controller.Prelude.{
  Bool, List, Text, [], any, false, filter, if◌then◌else◌, length, map, none, not, reverse, some,
  suc, text_eq, true, zero, ℕ, ◌+◌, ◌∷◌,
}
use fez_meshcore_controller.Core.Config.{RegionConfig}

-- An entry of the result: depth and region.
pub record Entry : Type 0 where
  pub depth : ℕ
  pub region : RegionConfig

-- The locals that the recursion shares; the latest entry and name are in front.
pub record Walk : Type 0 where
  pub visited : List Text
  pub out : List Entry

abbrev pub has_name : Text → List Text → Bool
has_name name = any (λ n. text_eq n name)

unfoldable pub is_root : List RegionConfig → RegionConfig → Bool
unfolding text_eq
is_root regions r = elim r.parent [
  | none ↦ true
  | some parent ↦ not (has_name parent (map (λ k. k.name) regions))
]

abbrev pub is_child_of : Text → RegionConfig → Bool
is_child_of name r = elim r.parent [ none ↦ false | some parent ↦ text_eq parent name ]

-- A loop over regions.
abbrev pub each : (RegionConfig → Walk → Walk) → List RegionConfig → Walk → Walk
each f [] w = w
each f (r ∷ rs) w = each f rs (f r w)

abbrev pub place : RegionConfig → ℕ → Walk → Walk
place r depth w = record {
  visited = r.name ∷ w.visited;
  out = record { depth = depth; region = r } ∷ w.out;
}

-- On fuel for each region that is not visited, and one.
unfoldable pub push_with_children : ℕ → List RegionConfig → RegionConfig → ℕ → Walk → Walk
unfolding text_eq
push_with_children zero regions region depth w = w
push_with_children (suc fuel) regions region depth w =
    let below =
      each (λ child v. push_with_children fuel regions child (depth + 1) v)
        (filter (is_child_of region.name) regions) (place region depth w) in
    if has_name region.name w.visited then w else below

unfoldable pub flatten_on : ℕ → List RegionConfig → List Entry
unfolding push_with_children is_root
flatten_on fuel regions =
    reverse
      (each (λ r w. push_with_children fuel regions r 0 w) (filter (is_root regions) regions)
        (record { visited = []; out = [] })).out

unfoldable pub flatten_region_tree : List RegionConfig → List Entry
unfolding flatten_on
flatten_region_tree regions = flatten_on (length regions + 1) regions
