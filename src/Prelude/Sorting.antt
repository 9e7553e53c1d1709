-- ===== src/Prelude/Sorting.antt =====
-- `Ordering`, comparisons that order, and the stable `slice::sort_by`.
pub mod Laws
use Prim.Native.Nat.{ℕ, compare, Ordering}
use mathlib.Core.Path.{◌≡◌}
use mathlib.Core.Bool.{Bool, true, false}
use mathlib.Core.List.{List, [], ◌∷◌}
use fez_meshcore_controller.Prelude.Tests.{if◌then◌else◌}
use fez_meshcore_controller.Prelude.Lists.{All}
use fez_meshcore_controller.Prelude.Int.{ℤ, pos, negsuc}

-- `Ordering::reverse` and `Ordering::then_with`.
abbrev pub swap : Ordering → Ordering
swap Ordering.lt = Ordering.gt
swap Ordering.eq = Ordering.eq
swap Ordering.gt = Ordering.lt

abbrev pub then_with : Ordering → Ordering → Ordering
then_with Ordering.lt o = Ordering.lt
then_with Ordering.eq o = o
then_with Ordering.gt o = Ordering.gt

abbrev pub is_gt : Ordering → Bool
is_gt Ordering.gt = true
is_gt Ordering.eq = false
is_gt Ordering.lt = false

abbrev pub is_eq : Ordering → Bool
is_eq Ordering.eq = true
is_eq Ordering.lt = false
is_eq Ordering.gt = false

-- What two comparisons in a row, of a with b and of b with c, say of a and c.
abbrev pub Chains : Ordering → Ordering → Ordering → Type 0
Chains Ordering.eq o r = r ≡ o
Chains Ordering.lt Ordering.gt r = Unit
Chains Ordering.lt Ordering.eq r = r ≡ Ordering.lt
Chains Ordering.lt Ordering.lt r = r ≡ Ordering.lt
Chains Ordering.gt Ordering.lt r = Unit
Chains Ordering.gt Ordering.eq r = r ≡ Ordering.gt
Chains Ordering.gt Ordering.gt r = r ≡ Ordering.gt

-- A comparison that `sort_by` may be called with: a total preorder.
pub record IsOrder {ℓ} {A : Type ℓ} (c : A → A → Ordering) : Type ℓ where
  pub swaps : (a b : A) → c b a ≡ swap (c a b)
  pub chains : (a b d : A) → Chains (c a b) (c b d) (c a d)

-- `Ord::cmp` of integers, of strings by their bytes, and of the number of an `Option` with `None`
-- the greatest.
unfoldable pub cmp_ℤ : ℤ → ℤ → Ordering
cmp_ℤ (pos a) (pos b) = compare a b
cmp_ℤ (pos a) (negsuc b) = Ordering.gt
cmp_ℤ (negsuc a) (pos b) = Ordering.lt
cmp_ℤ (negsuc a) (negsuc b) = compare b a

unfoldable pub cmp_text : List ℕ → List ℕ → Ordering
cmp_text [] [] = Ordering.eq
cmp_text [] (b ∷ t) = Ordering.lt
cmp_text (a ∷ s) [] = Ordering.gt
cmp_text (a ∷ s) (b ∷ t) = then_with (compare a b) (cmp_text s t)

module _ {ℓ} {A : Type ℓ} (c : A → A → Ordering) where
  -- `x` before the first element that is not less than it.
  unfoldable pub insert_sorted : A → List A → List A
  insert_sorted x [] = x ∷ []
  insert_sorted x (y ∷ ys) =
      let later = insert_sorted x ys in if is_gt (c x y) then y ∷ later else x ∷ y ∷ ys

  -- Equal elements keep their order.
  unfoldable pub sort_by : List A → List A
  unfolding insert_sorted
  sort_by [] = []
  sort_by (x ∷ xs) = insert_sorted x (sort_by xs)

  abbrev pub IsBelow : A → List A → Type 0
  IsBelow x = All λ y. is_gt (c x y) ≡ false

  -- Each element is at most each later one.
  abbrev pub IsSorted : List A → Type 0
  IsSorted [] = Unit
  IsSorted (x ∷ xs) = IsBelow x xs × IsSorted xs
