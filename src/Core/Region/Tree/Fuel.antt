-- ===== src/Core/Region/Tree/Fuel.antt =====
-- Why the fuel of `flatten_region_tree` is enough: each level places a region of a new name.
use fez_meshcore_controller.Prelude.{
  All, All-members, Bool, Bool-cases, List, Member, Text, [], ap, arith, false, filter, inl, inr,
  length, mem-filter, not, refl, reverse, suc, sym, text_eq_refl, true, zero, ℕ, ◌+◌, ◌<◌, ◌∙◌, ◌∷◌,
  ◌≡◌, ◌≤◌,
}
use fez_meshcore_controller.Core.Config.{RegionConfig}
use fez_meshcore_controller.Core.Region.Tree.{
  Walk, has_name, is_root, is_child_of, each, place, push_with_children, flatten_on,
  flatten_region_tree,
}

-- How many regions have a name that is not visited.
abbrev unvisited : List Text → List RegionConfig → ℕ
unvisited visited regions = length (filter (λ r. not (has_name r.name visited)) regions)

module _ {A : Type 0} (p q : A → Bool) (sub : (x : A) → p x ≡ true → q x ≡ true) where
  length-filter_le : (xs : List A) → length (filter p xs) ≤ length (filter q xs)
  length-filter_le [] = omega arith
  length-filter_le (x ∷ xs) = ground (arith, sub x, length-filter_le xs)

  length-filter_lt :
      (x : A) (xs : List A)
      → Member x xs
      → p x ≡ false
      → q x ≡ true
      → length (filter p xs) < length (filter q xs)
  length-filter_lt x [] m h k = absurd m
  length-filter_lt x (y ∷ xs) (inl e) h k =
      ground (arith, length-filter_le xs, ap p e, ap q e, h, k)
  length-filter_lt x (y ∷ xs) (inr m) h k = ground (arith, sub y, length-filter_lt x xs m h k)

length-filter : {A : Type 0} (p : A → Bool) (xs : List A) → length (filter p xs) ≤ length xs
length-filter p [] = omega arith
length-filter p (x ∷ xs) = ground (arith, length-filter p xs)

module _ (regions : List RegionConfig) where
  -- The walk visited the names of `w`, and maybe more.
  IsLater : Walk → Walk → Type 0
  IsLater w w' = (name : Text) → has_name name w.visited ≡ true → has_name name w'.visited ≡ true

  each-IsLater :
      (f : RegionConfig → Walk → Walk)
      → ((r : RegionConfig) (w : Walk) → IsLater w (f r w))
      → (rs : List RegionConfig) (w : Walk) → IsLater w (each f rs w)
  unfolding IsLater
  each-IsLater f k [] w = λ name h. h
  each-IsLater f k (r ∷ rs) w = λ name h. each-IsLater f k rs (f r w) name (k r w name h)

  place-IsLater : (r : RegionConfig) (depth : ℕ) (w : Walk) → IsLater w (place r depth w)
  unfolding IsLater
  place-IsLater r depth w = λ name h. ground (arith, h)

  push-IsLater :
      (fuel : ℕ) (r : RegionConfig) (depth : ℕ) (w : Walk)
      → IsLater w (push_with_children fuel regions r depth w)
  unfolding push_with_children IsLater
  push-IsLater zero r depth w = λ name h. h
  push-IsLater (suc fuel) r depth w = elim (Bool-cases (has_name r.name w.visited)) [
    | inl e ↦ rw (e) (λ name h. h)
    | inr e ↦ rw (e) (λ name h.
        each-IsLater (λ child v. push_with_children fuel regions child (depth + 1) v)
          (λ child v. push-IsLater fuel child (depth + 1) v) (filter (is_child_of r.name) regions)
          (place r depth w) name (place-IsLater r depth w name h))
  ]

  unvisited_later :
      (w w' : Walk) → IsLater w w' → unvisited w'.visited regions ≤ unvisited w.visited regions
  unfolding IsLater
  unvisited_later w w' later = length-filter_le _ _ (λ r h. ground (arith, h, later r.name)) regions

  unvisited-place :
      (r : RegionConfig) (depth : ℕ) (w : Walk)
      → Member r regions
      → has_name r.name w.visited ≡ false
      → unvisited (place r depth w).visited regions < unvisited w.visited regions
  unvisited-place r depth w m h =
      length-filter_lt _ _ (λ k e. ground (arith, e)) r regions m
        (ground (arith, text_eq_refl r.name)) (ground (arith, h))

  -- Two loops that do the same on each region while little enough is unvisited.
  each-same :
      (f g : RegionConfig → Walk → Walk) (n : ℕ)
      → ((r : RegionConfig) (w : Walk) → IsLater w (f r w))
      → ((r : RegionConfig) (w : Walk)
          → Member r regions
          → unvisited w.visited regions < n
          → f r w ≡ g r w)
      → (rs : List RegionConfig) (w : Walk) → All (λ r. Member r regions) rs
      → unvisited w.visited regions < n
      → each f rs w ≡ each g rs w
  each-same f g n later same [] w m h = refl
  each-same f g n later same (r ∷ rs) w m h =
      each-same f g n later same rs (f r w) m.1
        (omega (arith, h, unvisited_later w (f r w) (later r w)))
      ∙ ap (λ v. each g rs v) (same r w m.0 h)

  filter-AreMembers : (p : RegionConfig → Bool) → All (λ r. Member r regions) (filter p regions)
  filter-AreMembers p = All-members _ (filter p regions) (λ r m. ((mem-filter p r regions).0 m).0)

  push-same :
      (fuel more : ℕ) (r : RegionConfig) (depth : ℕ) (w : Walk)
      → Member r regions
      → unvisited w.visited regions < fuel
      → fuel ≤ more
      → push_with_children fuel regions r depth w ≡ push_with_children more regions r depth w
  unfolding push_with_children
  push-same zero more r depth w m h k = absurd (omega arith)
  push-same (suc fuel) zero r depth w m h k = absurd (omega arith)
  push-same (suc fuel) (suc more) r depth w m h k = elim (Bool-cases (has_name r.name w.visited)) [
    | inl e ↦ rw (e) refl
    | inr e ↦ rw (e) (
        each-same (λ c v. push_with_children fuel regions c (depth + 1) v)
          (λ c v. push_with_children more regions c (depth + 1) v) fuel
          (λ c v. push-IsLater fuel c (depth + 1) v)
          (λ c v cm ch. push-same fuel more c (depth + 1) v cm ch (omega (arith, k)))
          (filter (is_child_of r.name) regions) (place r depth w)
          (filter-AreMembers (is_child_of r.name))
          (omega (arith, h, unvisited-place r depth w m e)))
  ]

  -- Any fuel from one more than the number of regions gives the same tree: the recursion never
  -- runs out of it, also on parents that form a cycle.
  pub flatten_on_enough :
      (more : ℕ) → length regions < more → flatten_on more regions ≡ flatten_region_tree regions
  unfolding flatten_on flatten_region_tree
  flatten_on_enough more h = sym (
      ap (λ w. reverse w.out)
        (each-same (λ r w. push_with_children (length regions + 1) regions r 0 w)
          (λ r w. push_with_children more regions r 0 w) (length regions + 1)
          (λ r w. push-IsLater (length regions + 1) r 0 w)
          (λ r w m k. push-same (length regions + 1) more r 0 w m k (omega (arith, h)))
          (filter (is_root regions) regions) (record { visited = []; out = [] })
          (filter-AreMembers (is_root regions))
          (omega (arith, length-filter (λ r. not (has_name r.name [])) regions))))
