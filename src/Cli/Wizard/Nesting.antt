-- ===== src/Cli/Wizard/Nesting.antt =====
-- Outlines that skip no level, and the edits that keep them so.
use fez_meshcore_controller.Prelude.{
  Bool, Bool-cases, Option, Text, [], ap, arith, false, if◌then◌else◌, inl, inr, is_empty, length,
  ltb, ltb→lt, map_option, none, refl, remove_at, suc, true, unwrap_or, zero, ℕ, ◌+◌, ◌-◌, ◌<◌, ◌∷◌,
  ◌≡◌, ◌≤◌,
}
use fez_meshcore_controller.Cli.Wizard.Range.{IsAt, IsInRange}
use fez_meshcore_controller.Cli.Repeater.{trim}
use fez_meshcore_controller.Cli.Wizard.{
  RegionOutline, clamp_indent, promote, delete_outline_entry, insert_at, set_depth, set_name,
  depth_at, Editor, add_entry, commit, indent, delete, delete_entry,
}

-- Each entry is at most one level below the entry before it, and the first at most at `limit`.
abbrev pub IsNested : ℕ → RegionOutline → Type 0
IsNested limit [] = Unit
IsNested limit ((name, depth) ∷ entries) = (depth ≤ limit) × IsNested (depth + 1) entries

abbrev pub IsOutline : RegionOutline → Type 0
IsOutline = IsNested 0

IsNested-le : (a b : ℕ) (xs : RegionOutline) → a ≤ b → IsNested a xs → IsNested b xs
IsNested-le a b [] l h = tt
IsNested-le a b ((n, d) ∷ xs) l h = (omega (arith, h.0), h.1)

promote-IsNested :
    (d limit : ℕ) (xs : RegionOutline)
    → d ≤ limit
    → IsNested (limit + 1) xs
    → IsNested limit (promote d xs)
unfolding promote
promote-IsNested d limit [] l h = tt
promote-IsNested d limit ((n, k) ∷ xs) l h = elim (Bool-cases (ltb d k)) [
  | inl e ↦
      let deeper : d < k = ltb→lt d k e in
      let again : suc (k - 1) ≡ k = omega arith in
      rw e (
        omega (arith, h.0),
        IsNested-le k ((k - 1) + 1) (promote d xs) (omega arith)
            (promote-IsNested d k xs (omega arith) h.1),
      )
  | inr e ↦ rw e (ground (arith, e), h.1)
]

-- An entry and the entries below it that are deeper stay in place, one level up.
delete-IsNested :
    (xs : RegionOutline) (i limit : ℕ)
    → IsNested limit xs
    → IsNested limit (delete_outline_entry xs i)
unfolding delete_outline_entry
delete-IsNested [] i limit h = tt
delete-IsNested ((n, d) ∷ xs) zero limit h =
    IsNested-le d limit (promote d xs) h.0 (promote-IsNested d d xs (omega arith) h.1)
delete-IsNested ((n, d) ∷ xs) (suc i) limit h = (h.0, delete-IsNested xs i (d + 1) h.1)

set_name-IsNested :
    (xs : RegionOutline) (i : ℕ) (name : Text) (limit : ℕ)
    → IsNested limit xs
    → IsNested limit (set_name i name xs)
set_name-IsNested [] i name limit h = tt
set_name-IsNested (x ∷ xs) zero name limit h = h
set_name-IsNested (x ∷ xs) (suc i) name limit h = (h.0, set_name-IsNested xs i name (x.1 + 1) h.1)

-- The deepest that an entry may be.
abbrev limit_at : ℕ → RegionOutline → ℕ → ℕ
limit_at limit xs zero = limit
limit_at limit [] (suc i) = 1
limit_at limit (x ∷ xs) (suc i) = limit_at (x.1 + 1) xs i

limit_at-suc :
    (limit : ℕ) (xs : RegionOutline) (i : ℕ) → limit_at limit xs (suc i) ≡ depth_at xs i + 1
limit_at-suc limit [] i = refl
limit_at-suc limit (x ∷ xs) zero = refl
limit_at-suc limit (x ∷ xs) (suc i) = limit_at-suc (x.1 + 1) xs i

depth_at-le :
    (limit : ℕ) (xs : RegionOutline) (i : ℕ)
    → IsNested limit xs
    → depth_at xs i ≤ limit_at limit xs i
depth_at-le limit [] zero h = omega arith
depth_at-le limit [] (suc i) h = omega arith
depth_at-le limit (x ∷ xs) zero h = h.0
depth_at-le limit (x ∷ xs) (suc i) h = depth_at-le (x.1 + 1) xs i h.1

set_depth-IsNested :
    (xs : RegionOutline) (i d limit : ℕ)
    → IsNested limit xs
    → depth_at xs i ≤ d
    → d ≤ limit_at limit xs i
    → IsNested limit (set_depth i d xs)
set_depth-IsNested [] i d limit h a b = tt
set_depth-IsNested (x ∷ xs) zero d limit h a b =
    (b, IsNested-le (x.1 + 1) (d + 1) xs (omega (arith, a)) h.1)
set_depth-IsNested (x ∷ xs) (suc i) d limit h a b =
    (h.0, set_depth-IsNested xs i d (x.1 + 1) h.1 a b)

clamp_indent_bounds :
    (xs : RegionOutline) (i : ℕ)
    → IsOutline xs
    → (depth_at xs i ≤ clamp_indent xs i true) × (clamp_indent xs i true ≤ limit_at 0 xs i)
unfolding clamp_indent
clamp_indent_bounds xs zero h = ground (arith, depth_at-le 0 xs 0 h)
clamp_indent_bounds xs (suc i) h = ground (arith, depth_at-le 0 xs (suc i) h, limit_at-suc 0 xs i)

insert_at-IsNested :
    (xs : RegionOutline) (i limit : ℕ) (name : Text)
    → IsNested limit xs
    → IsNested limit (insert_at (suc i) (name, depth_at xs i) xs)
unfolding insert_at
insert_at-IsNested [] i limit name h = (omega arith, tt)
insert_at-IsNested (x ∷ xs) zero limit name h = (h.0, (omega arith, h.1))
insert_at-IsNested (x ∷ xs) (suc i) limit name h = (h.0, insert_at-IsNested xs i (x.1 + 1) name h.1)

remove_at-insert_at :
    (xs : RegionOutline) (i : ℕ) (e : Text × ℕ)
    → i < length xs
    → remove_at (insert_at (suc i) e xs) (suc i) ≡ xs
unfolding insert_at
remove_at-insert_at [] i e h = absurd (omega arith)
remove_at-insert_at (x ∷ xs) zero e h = refl
remove_at-insert_at (x ∷ xs) (suc i) e h =
    ap (λ l. x ∷ l) (remove_at-insert_at xs i e (omega arith))

if_IsOutline :
    (c : Bool) (x y : Editor)
    → IsOutline x.outline
    → IsOutline y.outline
    → IsOutline (if c then x else y).outline
if_IsOutline true x y h k = h
if_IsOutline false x y h k = k

added-IsNested :
    (xs : RegionOutline) (i : ℕ) (name : Text)
    → IsOutline xs
    → IsOutline (insert_at (if is_empty xs then 0 else i + 1) (name, depth_at xs i) xs)
added-IsNested [] i name h = unfold insert_at in (omega arith, tt)
added-IsNested (x ∷ xs) i name h =
    let next : i + 1 ≡ suc i = omega arith in rw next (insert_at-IsNested (x ∷ xs) i 0 name h)

add_entry-IsOutline : (e : Editor) → IsOutline e.outline → IsOutline (add_entry e).outline
unfolding add_entry
add_entry-IsOutline e h = added-IsNested e.outline e.selected [] h

commit-IsOutline :
    (typed : Option Text) (e : Editor)
    → IsOutline e.outline
    → IsOutline (commit false typed e).outline
unfolding commit
commit-IsOutline typed e h =
    if_IsOutline (is_empty (unwrap_or (map_option trim typed) [])) _ _ h
      (set_name-IsNested e.outline e.selected (unwrap_or (map_option trim typed) []) 0 h)

added_removed :
    (xs : RegionOutline) (i : ℕ) (e : Text × ℕ)
    → IsAt i (length xs)
    → let at = if is_empty xs then 0 else i + 1 in remove_at (insert_at at e xs) at ≡ xs
added_removed [] i e h = unfold insert_at in refl
added_removed (x ∷ xs) i e h =
    let next : i + 1 ≡ suc i = omega arith in
    let below : i < length (x ∷ xs) = ground (arith, h) in
    rw next (remove_at-insert_at (x ∷ xs) i e below)

add_cancelled : (e : Editor) → IsInRange e → (commit true none (add_entry e)).outline ≡ e.outline
unfolding commit add_entry
add_cancelled e h = added_removed e.outline e.selected ([], depth_at e.outline e.selected) h.0

-- Nesting an entry deeper, adding one, renaming one and deleting one leave an outline that skips
-- no level, if it skipped none; and a new entry whose name is not given is taken away again.
pub edits-IsOutline :
    (e : Editor)
    → IsOutline e.outline
    → IsInRange e
    → IsOutline (indent true e).outline
      × IsOutline (add_entry e).outline
      × IsOutline (delete e).outline
      × ((typed : Option Text) → IsOutline (commit false typed e).outline)
      × ((commit true none (add_entry e)).outline ≡ e.outline)
unfolding indent delete delete_entry
edits-IsOutline e h r =
    let bounds = clamp_indent_bounds e.outline e.selected h in
    (
      if_IsOutline (is_empty e.outline) e _ h (
          set_depth-IsNested e.outline e.selected (clamp_indent e.outline e.selected true) 0 h
            bounds.0 bounds.1),
      add_entry-IsOutline e h,
      if_IsOutline (is_empty e.outline) e _ h (delete-IsNested e.outline e.selected 0 h),
      λ typed. commit-IsOutline typed e h,
      add_cancelled e r,
    )
