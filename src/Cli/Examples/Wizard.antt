-- ===== src/Cli/Examples/Wizard.antt =====
-- The theorems on the editor of regions at a concrete tree.
use fez_meshcore_controller.Prelude.{
  List, Option, Text, [], arith, codes, false, inl, none, refl, some, true, ◌∷◌, ◌≡◌,
}
use fez_meshcore_controller.Core.Config.{RegionConfig}
use fez_meshcore_controller.Cli.Wizard.{
  RegionOutline, regions_from_outline, TreeKey, char, arrow_right, enter, Editor, finished,
  edit_region_tree, edit_region_tree_start, indent, add_entry, delete, commit,
}
use fez_meshcore_controller.Cli.Wizard.Range.{StaysInRange, edit_region_tree-IsInRange}
use fez_meshcore_controller.Cli.Wizard.Nesting.{IsOutline, edits-IsOutline}
use fez_meshcore_controller.Cli.Wizard.Parents.{IsRead, regions_from_outline-IsRead}

abbrev region : Text → Option Text → RegionConfig
region name parent = record { name = name; parent = parent }

abbrev initial : List RegionConfig
initial = region (codes "France") (some (codes "Europe")) ∷ region (codes "Europe") none ∷ []

-- A region is added below the first and nested.
abbrev keys : List TreeKey
keys = char (codes "a") ∷ char (codes "I") ∷ char (codes "t") ∷ enter ∷ arrow_right ∷ enter ∷ []

edit_runs :
    edit_region_tree initial keys (edit_region_tree_start initial)
    ≡ finished (
        region (codes "Europe") none
        ∷ region (codes "It") (some (codes "Europe"))
        ∷ region (codes "France") (some (codes "Europe"))
        ∷ [])
unfolding edit_region_tree edit_region_tree_start
edit_runs = refl

edit_region_tree-IsInRange_example :
    StaysInRange (edit_region_tree initial keys (edit_region_tree_start initial))
edit_region_tree-IsInRange_example = edit_region_tree-IsInRange initial keys

abbrev outline : RegionOutline
outline = (codes "Europe", 0) ∷ (codes "France", 1) ∷ (codes "Paris", 2) ∷ (codes "World", 0) ∷ []

abbrev editor : Editor
editor = record { outline = outline; selected = 1; edit = none }

outline-IsOutline : IsOutline outline
outline-IsOutline = (omega arith, (omega arith, (omega arith, (omega arith, tt))))

edits-IsOutline_example :
    IsOutline (indent true editor).outline
    × IsOutline (add_entry editor).outline
    × IsOutline (delete editor).outline
    × ((typed : Option Text) → IsOutline (commit false typed editor).outline)
    × ((commit true none (add_entry editor)).outline ≡ outline)
edits-IsOutline_example =
    edits-IsOutline editor outline-IsOutline (inl (omega arith), λ z. absurd (omega (arith, z)))

regions_from_outline-IsRead_example : IsRead [] outline (regions_from_outline outline)
regions_from_outline-IsRead_example = regions_from_outline-IsRead outline outline-IsOutline
