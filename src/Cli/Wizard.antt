-- ===== src/Cli/Wizard.antt =====
-- The editor of the region tree of cli/src/wizard.rs. What it draws is left out.
pub mod Range
pub mod Nesting
pub mod Parents
use fez_meshcore_controller.Prelude.{
  Bool, List, Option, Text, [], codes, false, get_or, if◌then◌else◌, is_empty, leb, length, ltb,
  map, map_option, min, modify, none, remove_at, reverse, some, suc, text_eq, true, unwrap_or, zero,
  ℕ, ◌&&◌, ◌++◌, ◌+◌, ◌-◌, ◌==◌, ◌||◌, ◌∷◌,
}
use fez_meshcore_controller.Core.Config.{RegionConfig}
use fez_meshcore_controller.Core.Region.Tree.{flatten_region_tree}
use fez_meshcore_controller.Cli.Repeater.{trim}

-- The names with their depths, in the order that they are shown.
abbrev pub RegionOutline : Type 0
RegionOutline = List (Text × ℕ)

unfoldable pub outline_from_regions : List RegionConfig → RegionOutline
unfolding flatten_region_tree
outline_from_regions regions = map (λ e. (e.region.name, e.depth)) (flatten_region_tree regions)

-- The first entry of a depth.
abbrev pub find_depth : ℕ → RegionOutline → Option Text
find_depth depth [] = none
find_depth depth ((name, d) ∷ entries) = if d == depth then some name else find_depth depth entries

abbrev pub parent_of : ℕ → RegionOutline → Option Text
parent_of depth earlier = if depth == 0 then none else find_depth (depth - 1) earlier

-- `earlier` has the latest entry in front.
unfoldable pub regions_after : RegionOutline → RegionOutline → List RegionConfig
regions_after earlier [] = []
regions_after earlier ((name, depth) ∷ entries) =
    record { name = name; parent = parent_of depth earlier }
    ∷ regions_after ((name, depth) ∷ earlier) entries

unfoldable pub regions_from_outline : RegionOutline → List RegionConfig
unfolding regions_after
regions_from_outline outline = regions_after [] outline

abbrev pub depth_at : RegionOutline → ℕ → ℕ
depth_at outline index = (get_or outline index ([], 0)).1

-- `deeper` for a positive delta. An index out of range is not asked for.
unfoldable pub clamp_indent : RegionOutline → ℕ → Bool → ℕ
clamp_indent outline index deeper =
    let current = depth_at outline index in
    let max_depth = if index == 0 then 0 else depth_at outline (index - 1) + 1 in
    if deeper then min (current + 1) max_depth else current - 1

-- The loop over the entries below the one that is deleted.
unfoldable pub promote : ℕ → RegionOutline → RegionOutline
promote depth [] = []
promote depth ((name, d) ∷ entries) =
    let rest = promote depth entries in
    if ltb depth d then (name, d - 1) ∷ rest else (name, d) ∷ entries

unfoldable pub delete_outline_entry : RegionOutline → ℕ → RegionOutline
unfolding promote
delete_outline_entry [] index = []
delete_outline_entry ((name, depth) ∷ entries) zero = promote depth entries
delete_outline_entry (e ∷ entries) (suc index) = e ∷ delete_outline_entry entries index

abbrev pub set_depth : ℕ → ℕ → RegionOutline → RegionOutline
set_depth index depth outline = modify outline index (λ e. (e.0, depth))

abbrev pub set_name : ℕ → Text → RegionOutline → RegionOutline
set_name index name outline = modify outline index (λ e. (name, e.1))

-- `Vec::insert`, and `swap` of an entry and the next.
unfoldable pub insert_at : ℕ → Text × ℕ → RegionOutline → RegionOutline
insert_at zero e entries = e ∷ entries
insert_at (suc index) e [] = e ∷ []
insert_at (suc index) e (x ∷ entries) = x ∷ insert_at index e entries

unfoldable pub swap_next : ℕ → RegionOutline → RegionOutline
swap_next zero (x ∷ y ∷ entries) = y ∷ x ∷ entries
swap_next zero entries = entries
swap_next (suc index) [] = []
swap_next (suc index) (x ∷ entries) = x ∷ swap_next index entries

-- A key; `char` has the bytes of one character.
pub data TreeKey : Type 0 where
  arrow_up arrow_down arrow_left arrow_right enter escape backspace del other_key : TreeKey
  char : Text → TreeKey

-- The name that is typed, for a new entry or the one that is selected.
pub record Edit : Type 0 where
  pub adding : Bool
  pub buf : Text

pub record Editor : Type 0 where
  pub outline : RegionOutline
  pub selected : ℕ
  pub edit : Option Edit

pub data Progress : Type 0 where
  going : Editor → Progress
  finished : List RegionConfig → Progress

unfoldable pub edit_region_tree_start : List RegionConfig → Editor
unfolding outline_from_regions
edit_region_tree_start initial = record {
  outline = outline_from_regions initial;
  selected = 0;
  edit = none;
}

-- `char::is_control_char`, on the bytes of a character.
abbrev pub is_control_char : Text → Bool
is_control_char (c ∷ []) = ltb c 32 || c == 127
is_control_char (a ∷ b ∷ []) = a == 194 && ltb b 160
is_control_char text = false

abbrev pub is_continuation : ℕ → Bool
is_continuation c = leb 128 c && ltb c 192

-- `String::pop`, on the bytes with the last in front.
unfoldable pub pop_char : Text → Text
pop_char [] = []
pop_char (c ∷ text) = let rest = pop_char text in if is_continuation c then rest else text

unfoldable pub add_entry : Editor → Editor
unfolding insert_at
add_entry e =
    let depth = depth_at e.outline e.selected in
    let at = if is_empty e.outline then 0 else e.selected + 1 in
    record {
      outline = insert_at at ([], depth) e.outline;
      selected = at;
      edit = some (record { adding = true; buf = [] });
    }

unfoldable pub delete_entry : Editor → Editor
unfolding delete_outline_entry
delete_entry e =
    let outline = delete_outline_entry e.outline e.selected in
    record e {
      outline = outline;
      selected = if leb (length outline) e.selected then length outline - 1 else e.selected;
    }

-- What a typed name does: `none` is that the typing was cancelled.
unfoldable pub commit : Bool → Option Text → Editor → Editor
unfolding trim
commit adding typed e =
    let name = unwrap_or (map_option trim typed) [] in
    if is_empty name
    then (if adding
        then record {
          outline = remove_at e.outline e.selected;
          selected = e.selected - 1;
          edit = none;
        }
        else record e { edit = none })
    else record e { outline = set_name e.selected name e.outline; edit = none }

-- A key while a name is typed.
unfoldable pub type_key : TreeKey → Edit → Editor → Editor
unfolding commit pop_char
type_key (char c) edit e =
    if is_control_char c then e else record e { edit = some (record edit { buf = edit.buf ++ c }) }
type_key backspace edit e = record e {
  edit = some (record edit { buf = reverse (pop_char (reverse edit.buf)) });
}
type_key enter edit e = commit edit.adding (some edit.buf) e
type_key escape edit e = commit edit.adding none e
type_key k edit e = e

abbrev pub indent : Bool → Editor → Editor
unfolding clamp_indent
indent deeper e = if is_empty e.outline then e else record e {
  outline = set_depth e.selected (clamp_indent e.outline e.selected deeper) e.outline;
}

unfoldable pub move_up : Editor → Editor
unfolding swap_next
move_up e =
    if ltb 0 e.selected
    then record e { outline = swap_next (e.selected - 1) e.outline; selected = e.selected - 1 }
    else e

unfoldable pub move_down : Editor → Editor
unfolding swap_next
move_down e =
    if ltb (e.selected + 1) (length e.outline)
    then record e { outline = swap_next e.selected e.outline; selected = e.selected + 1 }
    else e

abbrev pub rename : Editor → Editor
rename e = if is_empty e.outline then e else record e {
  edit = some (record { adding = false; buf = (get_or e.outline e.selected ([], 0)).0 });
}

abbrev pub delete : Editor → Editor
unfolding delete_entry
delete e = if is_empty e.outline then e else delete_entry e

unfoldable pub char_key : Text → Editor → Editor
unfolding text_eq indent move_up move_down add_entry delete
char_key c e =
    if text_eq c (codes "l")
    then indent true e
    else if text_eq c (codes "h")
    then indent false e
    else if text_eq c (codes "k")
    then move_up e
    else if text_eq c (codes "j")
    then move_down e
    else if text_eq c (codes "a")
    then add_entry e
    else if text_eq c (codes "r")
    then rename e
    else if text_eq c (codes "d")
    then delete e
    else e

-- A key while the tree is shown.
unfoldable pub tree_key : List RegionConfig → TreeKey → Editor → Progress
unfolding indent char_key delete regions_from_outline
tree_key initial arrow_up e = going (record e { selected = e.selected - 1 })
tree_key initial arrow_down e =
    going (
      if ltb (e.selected + 1) (length e.outline) then record e { selected = e.selected + 1 } else e)
tree_key initial arrow_right e = going (indent true e)
tree_key initial arrow_left e = going (indent false e)
tree_key initial (char c) e = going (char_key c e)
tree_key initial backspace e = going (delete e)
tree_key initial del e = going (delete e)
tree_key initial enter e = finished (regions_from_outline e.outline)
tree_key initial escape e = finished initial
tree_key initial other_key e = going e

unfoldable pub editor_key : List RegionConfig → TreeKey → Option Edit → Editor → Progress
unfolding tree_key type_key
editor_key initial k none e = tree_key initial k e
editor_key initial k (some edit) e = going (type_key k edit e)

unfoldable pub edit_region_tree : List RegionConfig → List TreeKey → Editor → Progress
unfolding editor_key
edit_region_tree initial [] e = going e
edit_region_tree initial (k ∷ ks) e = elim (editor_key initial k e.edit e) [
  | going next ↦ edit_region_tree initial ks next
  | finished regions ↦ finished regions
]
