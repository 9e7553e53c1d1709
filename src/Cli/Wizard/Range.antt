-- ===== src/Cli/Wizard/Range.antt =====
-- The selected entry of the tree's editor is in range, whatever keys are pressed.
use fez_meshcore_controller.Prelude.{
  Bool, List, Option, Text, [], ap, arith, codes, false, if◌then◌else◌, inl, inr, is_empty, length,
  map_option, modify, none, refl, remove_at, some, suc, text_eq, true, unwrap_or, zero, ℕ, ◌+◌, ◌-◌,
  ◌<◌, ◌↔◌, ◌∷◌, ◌≡◌, ◌⊎◌,
}
use fez_meshcore_controller.Core.Config.{RegionConfig}
use fez_meshcore_controller.Cli.Repeater.{trim}
use fez_meshcore_controller.Cli.Wizard.{
  depth_at, outline_from_regions, RegionOutline, clamp_indent, promote, delete_outline_entry,
  insert_at, swap_next, TreeKey, char, arrow_up, arrow_down, arrow_left, arrow_right, enter, escape,
  backspace, del, other_key, Edit, Editor, Progress, going, finished, add_entry, delete_entry,
  commit, type_key, indent, move_up, move_down, rename, delete, char_key, tree_key, editor_key,
  edit_region_tree, edit_region_tree_start,
}

length-modify : {A : Type 0} (xs : List A) (i : ℕ) (f : A → A) → length (modify xs i f) ≡ length xs
length-modify [] i f = refl
length-modify (x ∷ xs) zero f = refl
length-modify (x ∷ xs) (suc i) f = ap suc (length-modify xs i f)

length-insert_at :
    (i : ℕ) (e : Text × ℕ) (xs : RegionOutline) → length (insert_at i e xs) ≡ length xs + 1
unfolding insert_at
length-insert_at zero e xs = omega arith
length-insert_at (suc i) e [] = refl
length-insert_at (suc i) e (x ∷ xs) = omega (arith, length-insert_at i e xs)

length-swap_next : (i : ℕ) (xs : RegionOutline) → length (swap_next i xs) ≡ length xs
unfolding swap_next
length-swap_next zero [] = refl
length-swap_next zero (x ∷ []) = refl
length-swap_next zero (x ∷ y ∷ xs) = refl
length-swap_next (suc i) [] = refl
length-swap_next (suc i) (x ∷ xs) = ap suc (length-swap_next i xs)

length-promote : (d : ℕ) (xs : RegionOutline) → length (promote d xs) ≡ length xs
unfolding promote
length-promote d [] = refl
length-promote d ((n, k) ∷ xs) = ground (arith, length-promote d xs)

length-delete_outline_entry :
    (xs : RegionOutline) (i : ℕ)
    → i < length xs
    → length (delete_outline_entry xs i) + 1 ≡ length xs
unfolding delete_outline_entry
length-delete_outline_entry [] i h = absurd (omega arith)
length-delete_outline_entry ((n, d) ∷ xs) zero h = omega (arith, length-promote d xs)
length-delete_outline_entry ((n, d) ∷ xs) (suc i) h =
    omega (arith, length-delete_outline_entry xs i)

length-remove_at :
    (xs : RegionOutline) (i : ℕ) → i < length xs → length (remove_at xs i) + 1 ≡ length xs
length-remove_at [] i h = absurd (omega arith)
length-remove_at (x ∷ xs) zero h = omega arith
length-remove_at (x ∷ xs) (suc i) h = omega (arith, length-remove_at xs i)

abbrev pub IsAt : ℕ → ℕ → Type 0
IsAt selected n = (selected < n) ⊎ ((n ≡ 0) × (selected ≡ 0))

-- The selected index is that of an entry, or 0 in an empty tree, where no name is typed.
abbrev pub IsInRange : Editor → Type 0
IsInRange e = IsAt e.selected (length e.outline) × (length e.outline ≡ 0 → e.edit ≡ none)

is_empty-length : {A : Type 0} (xs : List A) → (is_empty xs ≡ true) ↔ (length xs ≡ 0)
is_empty-length [] = (λ h. refl, λ h. refl)
is_empty-length (x ∷ xs) = (λ h. cc, λ h. absurd (omega (arith, h)))

commit-IsInRange :
    (adding : Bool) (typed : Option Text) (e : Editor)
    → e.selected < length e.outline
    → IsInRange (commit adding typed e)
unfolding commit
commit-IsInRange adding typed e h = ground (
  arith,
  length-remove_at e.outline e.selected,
  length-modify e.outline e.selected
      (λ (x : Text × ℕ). (unwrap_or (map_option trim typed) [], x.1)),
)

in_range_of_edit :
    (e : Editor) (edit : Edit) → IsInRange e → e.edit ≡ some edit → e.selected < length e.outline
in_range_of_edit e edit h q = ground (arith, h.0, h.1)

type_key-IsInRange :
    (k : TreeKey) (edit : Edit) (e : Editor)
    → e.selected < length e.outline
    → IsInRange (type_key k edit e)
unfolding type_key
type_key-IsInRange (char c) edit e h = ground arith
type_key-IsInRange backspace edit e h = (inl h, λ z. absurd (omega arith))
type_key-IsInRange enter edit e h = commit-IsInRange edit.adding (some edit.buf) e h
type_key-IsInRange escape edit e h = commit-IsInRange edit.adding none e h
type_key-IsInRange arrow_up edit e h = (inl h, λ z. absurd (omega arith))
type_key-IsInRange arrow_down edit e h = (inl h, λ z. absurd (omega arith))
type_key-IsInRange arrow_left edit e h = (inl h, λ z. absurd (omega arith))
type_key-IsInRange arrow_right edit e h = (inl h, λ z. absurd (omega arith))
type_key-IsInRange del edit e h = (inl h, λ z. absurd (omega arith))
type_key-IsInRange other_key edit e h = (inl h, λ z. absurd (omega arith))

if_IsInRange :
    (c : Bool) (x y : Editor) → IsInRange x → IsInRange y → IsInRange (if c then x else y)
if_IsInRange true x y h k = h
if_IsInRange false x y h k = k

module _ (e : Editor) (h : IsInRange e) (q : e.edit ≡ none) where
  indent-IsInRange : (deeper : Bool) → IsInRange (indent deeper e)
  unfolding indent
  indent-IsInRange deeper = ground (
    arith,
    length-modify e.outline e.selected
        (λ (x : Text × ℕ). (x.0, clamp_indent e.outline e.selected deeper)),
  )

  move_up-IsInRange : IsInRange (move_up e)
  unfolding move_up
  move_up-IsInRange = ground (arith, length-swap_next (e.selected - 1) e.outline)

  move_down-IsInRange : IsInRange (move_down e)
  unfolding move_down
  move_down-IsInRange = ground (arith, length-swap_next e.selected e.outline)

  add_entry-IsInRange : IsInRange (add_entry e)
  unfolding add_entry
  add_entry-IsInRange = ground (
    arith,
    is_empty-length e.outline,
    length-insert_at 0 ([], depth_at e.outline e.selected) e.outline,
    length-insert_at (e.selected + 1) ([], depth_at e.outline e.selected) e.outline,
  )

  rename-IsInRange : IsInRange (rename e)
  rename-IsInRange = ground (arith, is_empty-length e.outline)

  delete-IsInRange : IsInRange (delete e)
  unfolding delete delete_entry
  delete-IsInRange =
      ground (arith, is_empty-length e.outline, length-delete_outline_entry e.outline e.selected)

  char_key-IsInRange : (c : Text) → IsInRange (char_key c e)
  unfolding char_key
  char_key-IsInRange c = if_IsInRange (text_eq c (codes "l")) _ _ (indent-IsInRange true) (
      if_IsInRange (text_eq c (codes "h")) _ _ (indent-IsInRange false) (
        if_IsInRange (text_eq c (codes "k")) _ _ move_up-IsInRange (
          if_IsInRange (text_eq c (codes "j")) _ _ move_down-IsInRange (
            if_IsInRange (text_eq c (codes "a")) _ _ add_entry-IsInRange (
              if_IsInRange (text_eq c (codes "r")) _ _ rename-IsInRange
                (if_IsInRange (text_eq c (codes "d")) _ _ delete-IsInRange h))))))

-- While the editor runs.
abbrev pub StaysInRange : Progress → Type 0
StaysInRange (going e) = IsInRange e
StaysInRange (finished regions) = Unit

tree_key-IsInRange :
    (initial : List RegionConfig) (k : TreeKey) (e : Editor)
    → IsInRange e
    → e.edit ≡ none
    → StaysInRange (tree_key initial k e)
unfolding tree_key
tree_key-IsInRange initial arrow_up e h q = ground (arith, h.0, h.1)
tree_key-IsInRange initial arrow_down e h q = ground (arith, h.0, h.1)
tree_key-IsInRange initial arrow_right e h q = indent-IsInRange e h q true
tree_key-IsInRange initial arrow_left e h q = indent-IsInRange e h q false
tree_key-IsInRange initial (char c) e h q = char_key-IsInRange e h q c
tree_key-IsInRange initial backspace e h q = delete-IsInRange e h q
tree_key-IsInRange initial del e h q = delete-IsInRange e h q
tree_key-IsInRange initial enter e h q = tt
tree_key-IsInRange initial escape e h q = tt
tree_key-IsInRange initial other_key e h q = h

editor_key-IsInRange :
    (initial : List RegionConfig) (k : TreeKey) (o : Option Edit) (e : Editor)
    → IsInRange e
    → e.edit ≡ o
    → StaysInRange (editor_key initial k o e)
unfolding editor_key
editor_key-IsInRange initial k none e h q = tree_key-IsInRange initial k e h q
editor_key-IsInRange initial k (some edit) e h q =
    type_key-IsInRange k edit e (in_range_of_edit e edit h q)

edit-IsInRange :
    (initial : List RegionConfig) (keys : List TreeKey) (e : Editor)
    → IsInRange e
    → StaysInRange (edit_region_tree initial keys e)
unfolding edit_region_tree
edit-IsInRange initial [] e h = h
edit-IsInRange initial (k ∷ ks) e h =
    next_in_range initial ks (edit-IsInRange initial ks) (editor_key initial k e.edit e)
      (editor_key-IsInRange initial k e.edit e h refl)
  where
    next_in_range :
        (initial : List RegionConfig) (ks : List TreeKey)
        → ((e : Editor) → IsInRange e → StaysInRange (edit_region_tree initial ks e))
        → (r : Progress) → StaysInRange r
        → StaysInRange (elim r [
          | going next ↦ edit_region_tree initial ks next
          | finished regions ↦ finished regions
        ])
    next_in_range initial ks ih (going next) h = ih next h
    next_in_range initial ks ih (finished regions) h = tt

-- Whatever keys are pressed, the editor that is started on any regions selects an entry of the
-- outline, or none while the outline is empty, and a name is typed only for an entry.
pub edit_region_tree-IsInRange :
    (initial : List RegionConfig) (keys : List TreeKey)
    → StaysInRange (edit_region_tree initial keys (edit_region_tree_start initial))
unfolding edit_region_tree_start
edit_region_tree-IsInRange initial keys =
    edit-IsInRange initial keys (edit_region_tree_start initial)
      (starts (outline_from_regions initial), λ z. refl)
  where
    starts : (outline : RegionOutline) → IsAt 0 (length outline)
    starts [] = inr (refl, refl)
    starts (x ∷ outline) = inl (omega arith)
