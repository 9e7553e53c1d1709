-- ===== src/Core/Mesh/Regions.antt =====
-- `parse_region_hierarchy` of core/src/mesh.rs: the regions that a repeater prints.
pub mod Printed
use fez_meshcore_controller.Prelude.{
  List, Option, Text, [], codes, filter_map, if◌then◌else◌, is_empty, is_some, length, map_option,
  none, some, text_eq, unwrap_or, ℕ, ◌%◌, ◌&&◌, ◌-◌, ◌==◌, ◌^◌, ◌∷◌,
}
use fez_meshcore_controller.Prelude.Int.{ℤ}
use fez_meshcore_controller.Core.Mesh.{RegionHierarchyEntryDto, RegionHierarchyDto}

-- `str::lines`, which drops the line break; a carriage return before it is trimmed by the parser,
-- with any others.
abbrev pub to_first_line : ℕ → List Text → List Text
to_first_line c [] = (c ∷ []) ∷ []
to_first_line c (line ∷ later) = (c ∷ line) ∷ later

unfoldable pub lines : Text → List Text
lines [] = []
lines (c ∷ text) =
    let later = lines text in if c == b'\n' then [] ∷ later else to_first_line c later

-- `trim_start_matches` and `trim_end_matches` of a character.
unfoldable pub trim_start : ℕ → Text → Text
trim_start p [] = []
trim_start p (c ∷ text) = let rest = trim_start p text in if c == p then rest else c ∷ text

unfoldable pub trim_end : ℕ → Text → Text
trim_end p [] = []
trim_end p (c ∷ text) =
    let rest = trim_end p text in if is_empty rest && c == p then [] else c ∷ rest

unfoldable pub strip_suffix : Text → Text → Option Text
unfolding text_eq
strip_suffix suffix [] = if text_eq [] suffix then some [] else none
strip_suffix suffix (c ∷ text) =
    let rest = strip_suffix suffix text in
    if text_eq (c ∷ text) suffix then some [] else map_option (λ t. c ∷ t) rest

abbrev pub flood_mark : Text
flood_mark = codes " F"

abbrev pub home_mark : Text
home_mark = codes "^"

-- The entry of a line's text after its indentation, unless it is empty.
unfoldable pub region_entry : ℕ → Text → Option RegionHierarchyEntryDto
unfolding strip_suffix
region_entry depth trimmed =
    let without_flood = unwrap_or (strip_suffix flood_mark trimmed) trimmed in
    if is_empty trimmed
    then none
    else some (record {
      name = unwrap_or (strip_suffix home_mark without_flood) without_flood;
      depth = depth % 2 ^ 8;
      is_home = is_some (strip_suffix home_mark without_flood);
      flood_allowed = is_some (strip_suffix flood_mark trimmed);
    })

unfoldable pub region_of_line : Text → Option RegionHierarchyEntryDto
unfolding trim_start trim_end region_entry
region_of_line line =
    let trimmed = trim_start b' ' line in
    region_entry (length line - length trimmed) (trim_end b'\r' trimmed)

unfoldable pub parse_region_hierarchy : Text → ℤ → RegionHierarchyDto
unfolding lines region_of_line
parse_region_hierarchy raw_text fetched_at_unix = record {
  fetched_at_unix = fetched_at_unix;
  entries = filter_map region_of_line (lines raw_text);
  raw_text = raw_text;
}
