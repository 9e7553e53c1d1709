-- ===== src/Core/Examples/Regions.antt =====
-- The theorems on the tree of regions at a concrete configuration.
use fez_meshcore_controller.Prelude.{
  List, Option, Text, [], arith, codes, false, map, none, refl, reverse, some, true, ◌∷◌, ◌≡◌,
}
use fez_meshcore_controller.Core.Config.{RegionConfig}
use fez_meshcore_controller.Core.Region.Tree.{flatten_on, flatten_region_tree}
use fez_meshcore_controller.Core.Region.Tree.Placed.{IsTree, flatten_on-IsTree}
use fez_meshcore_controller.Core.Region.Tree.Fuel.{flatten_on_enough}
use fez_meshcore_controller.Core.Mesh.{RegionHierarchyEntryDto}
use fez_meshcore_controller.Core.Mesh.Regions.{parse_region_hierarchy, strip_suffix}
use fez_meshcore_controller.Core.Mesh.Regions.Printed.{print_regions, parse-print_regions}
use fez_meshcore_controller.Prelude.Int.{pos}

abbrev region : Text → Option Text → RegionConfig
region name parent = record { name = name; parent = parent }

-- Two levels below a root, and a cycle of two.
abbrev configured : List RegionConfig
configured =
    region (codes "France") (some (codes "Europe"))
    ∷ region (codes "World") none
    ∷ region (codes "Europe") (some (codes "World"))
    ∷ region (codes "A") (some (codes "B"))
    ∷ region (codes "B") (some (codes "A"))
    ∷ []

-- The tree, run: the cycle is omitted.
flatten_runs :
    map (λ e. e.region.name) (flatten_region_tree configured)
    ≡ codes "World" ∷ codes "Europe" ∷ codes "France" ∷ []
unfolding flatten_region_tree
flatten_runs = refl

flatten_on-IsTree_example : IsTree configured (reverse (flatten_on 6 configured))
flatten_on-IsTree_example = flatten_on-IsTree configured 6

flatten_on_enough_example : flatten_on 9 configured ≡ flatten_region_tree configured
flatten_on_enough_example = flatten_on_enough configured 9 (omega arith)

abbrev printed : List RegionHierarchyEntryDto
printed =
    record { name = codes "World"; depth = 0; is_home = false; flood_allowed = true }
    ∷ record { name = codes "Nord"; depth = 1; is_home = true; flood_allowed = true }
    ∷ record { name = codes "Sud"; depth = 1; is_home = false; flood_allowed = false }
    ∷ []

-- A blank line is skipped, and a line may end in a carriage return.
parse_runs :
    (parse_region_hierarchy (codes "World F\n \r\n Nord^ F\r\n Sud") (pos 0)).entries ≡ printed
unfolding parse_region_hierarchy
parse_runs = refl

parse-print_regions_example :
    (parse_region_hierarchy (print_regions printed) (pos 0)).entries ≡ printed
unfolding strip_suffix
parse-print_regions_example = parse-print_regions printed (pos 0) (
  (
    omega arith,
    omega arith,
    (omega arith, (omega arith, (omega arith, (omega arith, (omega arith, tt))))),
    refl,
  ),
  (
    (
      omega arith,
      omega arith,
      (omega arith, (omega arith, (omega arith, (omega arith, tt)))),
      refl,
    ),
    ((omega arith, omega arith, (omega arith, (omega arith, (omega arith, tt))), refl), tt),
  ),
)
