-- ===== src/Cli/Wizard/Parents.antt =====
-- The parents that the wizard saves for an outline.
use fez_meshcore_controller.Prelude.{
  ==_iff, Bool-cases, List, Option, Text, [], arith, false, if◌then◌else◌, inl, inr, ltb, ltb→lt,
  none, refl, some, sym, ℕ, ◌+◌, ◌-◌, ◌<◌, ◌==◌, ◌↔◌, ◌∙◌, ◌∷◌, ◌≡◌, ◌≢◌, ◌≤◌,
}
use fez_meshcore_controller.Core.Config.{RegionConfig}
use fez_meshcore_controller.Cli.Wizard.{
  RegionOutline, find_depth, parent_of, regions_after, regions_from_outline,
}
use fez_meshcore_controller.Cli.Wizard.Nesting.{IsNested, IsOutline}

-- The nearest entry that is shallower, as an outline is read.
abbrev pub nearest_above : ℕ → RegionOutline → Option Text
nearest_above depth [] = none
nearest_above depth ((name, d) ∷ entries) =
    if ltb d depth then some name else nearest_above depth entries

-- Each region is an entry, with the nearest shallower entry before it as its parent; it has none
-- exactly if its depth is 0.
abbrev pub IsRead : RegionOutline → RegionOutline → List RegionConfig → Type 0
IsRead earlier [] [] = Unit
IsRead earlier [] (r ∷ regions) = ⊥
IsRead earlier (e ∷ entries) [] = ⊥
IsRead earlier (e ∷ entries) (r ∷ regions) =
    (r.name ≡ e.0)
    × (r.parent ≡ nearest_above e.1 earlier)
    × ((r.parent ≡ none) ↔ (e.1 ≡ 0))
    × IsRead (e ∷ earlier) entries regions

-- The entries before one of a depth, the latest in front.
abbrev IsBefore : ℕ → RegionOutline → Type 0
IsBefore depth [] = depth ≡ 0
IsBefore depth ((name, d) ∷ entries) = (depth ≤ d + 1) × IsBefore d entries

IsBefore-le : (a b : ℕ) (earlier : RegionOutline) → b ≤ a → IsBefore a earlier → IsBefore b earlier
IsBefore-le a b [] l h = omega (arith, l, h)
IsBefore-le a b ((n, d) ∷ earlier) l h = (omega (arith, l, h.0), h.1)

nearest_above_zero : (earlier : RegionOutline) → nearest_above 0 earlier ≡ none
nearest_above_zero [] = refl
nearest_above_zero ((n, d) ∷ earlier) = ground (arith, nearest_above_zero earlier)

find-nearest_above :
    (depth : ℕ) (earlier : RegionOutline)
    → 0 < depth
    → IsBefore depth earlier
    → (find_depth (depth - 1) earlier ≡ nearest_above depth earlier)
      × (nearest_above depth earlier ≢ none)
find-nearest_above depth [] l h = absurd (omega (arith, h))
find-nearest_above depth ((n, d) ∷ earlier) l h = elim (Bool-cases (ltb d depth)) [
  | inl e ↦
      let same : d ≡ depth - 1 = omega (arith, h.0, ltb→lt d depth e) in
      rw (e, (==_iff d (depth - 1)).1 same) (refl, λ q. cc)
  | inr e ↦
      let deep : depth ≤ d = ground (arith, e) in
      let other : (d == depth - 1) ≡ false = ground (arith, deep, l) in
      rw (e, other) (find-nearest_above depth earlier l (IsBefore-le d depth earlier deep h.1))
]

parent-nearest_above :
    (depth : ℕ) (earlier : RegionOutline)
    → IsBefore depth earlier
    → (parent_of depth earlier ≡ nearest_above depth earlier)
      × ((parent_of depth earlier ≡ none) ↔ (depth ≡ 0))
parent-nearest_above depth earlier h = elim (Bool-cases (depth == 0)) [
  | inl e ↦
      let zeroth : depth ≡ 0 = (==_iff depth 0).0 e in
      rw (e, zeroth) (sym (nearest_above_zero earlier), (λ q. refl, λ q. refl))
  | inr e ↦
      let found = find-nearest_above depth earlier (ground (arith, e)) h in
      rw e (found.0, (λ q. absurd (found.1 (sym found.0 ∙ q)), λ q. absurd (ground (arith, e, q))))
]

regions_after-IsRead :
    (earlier entries : RegionOutline) (limit : ℕ)
    → IsNested limit entries
    → ((depth : ℕ) → depth ≤ limit → IsBefore depth earlier)
    → IsRead earlier entries (regions_after earlier entries)
unfolding regions_after
regions_after-IsRead earlier [] limit h b = tt
regions_after-IsRead earlier ((n, d) ∷ entries) limit h b =
    let parent = parent-nearest_above d earlier (b d h.0) in
    (
      refl,
      parent.0,
      parent.1,
      regions_after-IsRead ((n, d) ∷ earlier) entries (d + 1) h.1 (λ k l. (l, b d h.0)),
    )

-- For an outline that skips no level the wizard saves a region for each entry, in order, whose
-- parent is the nearest shallower entry before it, and which has no parent exactly if its depth
-- is 0.
pub regions_from_outline-IsRead :
    (outline : RegionOutline) → IsOutline outline → IsRead [] outline (regions_from_outline outline)
unfolding regions_from_outline
regions_from_outline-IsRead outline h =
    regions_after-IsRead [] outline 0 h (λ depth l. omega (arith, l))
