-- ===== src/Core/Region/Tree/Placed.antt =====
-- Where the flattened tree has each region.
use fez_meshcore_controller.Prelude.{
  All, Bool, Bool-cases, List, Member, Option, Text, [], ap, false, filter, if◌then◌else◌, inl, inr,
  map, none, refl, reverse, some, suc, sym, text_eq_iff, true, zero, ℕ, ◌+◌, ◌∙◌, ◌∷◌, ◌≡◌, ◌⊎◌,
}
use mathlib.Core.List.{reverse-reverse}
use mathlib.Core.Path.{subst}
use fez_meshcore_controller.Core.Config.{RegionConfig}
use fez_meshcore_controller.Core.Region.Tree.{
  Entry, Walk, has_name, is_root, is_child_of, each, place, push_with_children, flatten_on,
}

abbrev name_of : Entry → Text
name_of e = e.region.name

-- The entry is a root at depth 0, or its parent is among the entries, one depth above.
abbrev pub IsBelow : List RegionConfig → Entry → List Entry → Type 0
IsBelow regions x out =
    ((x.depth ≡ 0) × (is_root regions x.region ≡ true))
    ⊎ ((y : Entry) × Member y out
        × (x.region.parent ≡ some y.region.name)
        × (x.depth ≡ y.depth + 1))

-- Entries with the latest in front: no name is among the earlier ones, and each is in its place.
abbrev pub IsTree : List RegionConfig → List Entry → Type 0
IsTree regions [] = Unit
IsTree regions (x ∷ out) =
    (has_name x.region.name (map name_of out) ≡ false) × IsBelow regions x out × IsTree regions out

All-filter_go :
    {A : Type 0} (P : A → Type 0) (p : A → Bool) (x : A) (rest : List A) (b : Bool)
    → (b ≡ true → P x)
    → All P rest
    → All P (if b then x ∷ rest else rest)
All-filter_go P p x rest true k h = (k refl, h)
All-filter_go P p x rest false k h = h

All-filter :
    {A : Type 0} (P : A → Type 0) (p : A → Bool)
    → ((x : A) → p x ≡ true → P x)
    → (xs : List A) → All P (filter p xs)
All-filter P p k [] = tt
All-filter P p k (x ∷ xs) = All-filter_go P p x (filter p xs) (p x) (k x) (All-filter P p k xs)

child_parent :
    (name : Text) (r : RegionConfig) (parent : Option Text)
    → r.parent ≡ parent
    → is_child_of name r ≡ true
    → r.parent ≡ some name
child_parent name r none e h = cc (rw (e) at h)
child_parent name r (some parent) e h = e ∙ ap some ((text_eq_iff parent name).0 (rw (e) at h))

module _ (regions : List RegionConfig) where
  IsGood : Walk → Type 0
  IsGood w = IsTree regions w.out × (w.visited ≡ map name_of w.out)

  Grows : Walk → Walk → Type 0
  Grows w w' = (y : Entry) → Member y w.out → Member y w'.out

  abbrev IsReady : ℕ → Walk → RegionConfig → Type 0
  IsReady depth w r = IsBelow regions (record { depth = depth; region = r }) w.out

  IsReady-Grows :
      (depth : ℕ) (r : RegionConfig) (w w' : Walk)
      → Grows w w'
      → IsReady depth w r
      → IsReady depth w' r
  unfolding Grows
  IsReady-Grows depth r w w' g (inl root) = inl root
  IsReady-Grows depth r w w' g (inr (y, m, p, d)) = inr (y, g y m, p, d)

  All-Grows :
      (depth : ℕ) (rs : List RegionConfig) (w w' : Walk)
      → Grows w w'
      → All (IsReady depth w) rs
      → All (IsReady depth w') rs
  All-Grows depth [] w w' g h = tt
  All-Grows depth (r ∷ rs) w w' g h =
      (IsReady-Grows depth r w w' g h.0, All-Grows depth rs w w' g h.1)

  abbrev Keeps : Walk → Walk → Type 0
  Keeps w w' = IsGood w' × Grows w w'

  each-Keeps :
      (depth : ℕ) (f : RegionConfig → Walk → Walk)
      → ((r : RegionConfig) (w : Walk) → IsGood w → IsReady depth w r → Keeps w (f r w))
      → (rs : List RegionConfig) (w : Walk) → IsGood w
      → All (IsReady depth w) rs
      → Keeps w (each f rs w)
  unfolding Grows
  each-Keeps depth f k [] w good h = (good, λ y m. m)
  each-Keeps depth f k (r ∷ rs) w good h =
      let step = k r w good h.0 in
      let rest = each-Keeps depth f k rs (f r w) step.0 (All-Grows depth rs w (f r w) step.1 h.1) in
      (rest.0, λ y m. rest.1 y (step.1 y m))

  place-Keeps :
      (depth : ℕ) (r : RegionConfig) (w : Walk)
      → IsGood w
      → IsReady depth w r
      → has_name r.name w.visited ≡ false
      → Keeps w (place r depth w)
  unfolding IsGood Grows
  place-Keeps depth r w good h fresh = (
    ((ap (has_name r.name) (sym good.1) ∙ fresh, h, good.0), ap (λ l. r.name ∷ l) good.1),
    λ y m. inr m,
  )

  children-AreReady :
      (depth : ℕ) (r : RegionConfig) (w : Walk)
      → All (IsReady (depth + 1) (place r depth w)) (filter (is_child_of r.name) regions)
  children-AreReady depth r w =
      All-filter _ (is_child_of r.name)
        (λ c h. inr (
          record { depth = depth; region = r },
          inl refl,
          child_parent r.name c c.parent refl h,
          refl,
        ))
        regions

  push-Keeps :
      (fuel depth : ℕ) (r : RegionConfig) (w : Walk)
      → IsGood w
      → IsReady depth w r
      → Keeps w (push_with_children fuel regions r depth w)
  unfolding push_with_children Grows
  push-Keeps zero depth r w good h = (good, λ y m. m)
  push-Keeps (suc fuel) depth r w good h = elim (Bool-cases (has_name r.name w.visited)) [
    | inl e ↦ rw (e) (good, λ y m. m)
    | inr e ↦
        let placed = place-Keeps depth r w good h e in
        let below =
          each-Keeps (depth + 1) (λ child v. push_with_children fuel regions child (depth + 1) v)
            (λ child v. push-Keeps fuel (depth + 1) child v) (filter (is_child_of r.name) regions)
            (place r depth w) placed.0 (children-AreReady depth r w) in
        rw (e) (below.0, λ y m. below.1 y (placed.1 y m))
  ]

  -- In the flattened tree, read from its end, no name comes twice, and each entry is a root of the
  -- configuration at depth 0 or comes after an entry of its parent, one depth below it, also when
  -- parents are missing or form a cycle.
  pub flatten_on-IsTree : (fuel : ℕ) → IsTree regions (reverse (flatten_on fuel regions))
  unfolding flatten_on IsGood
  flatten_on-IsTree fuel =
      subst (IsTree regions) (sym (reverse-reverse _))
        (each-Keeps 0 (λ r w. push_with_children fuel regions r 0 w) (λ r w. push-Keeps fuel 0 r w)
          (filter (is_root regions) regions) (record { visited = []; out = [] }) (tt, refl)
          (All-filter _ (is_root regions) (λ r h. inl (refl, h)) regions)).0.0
