-- ===== src/Prelude/Sorting/Laws.antt =====
-- Which comparisons order, and what `sort_by` does under one that orders.
use Prim.Native.Nat.{ℕ, compare, Ordering}
use mathlib.Core.Path.{◌≡◌, refl, ap, ◌∙◌}
use mathlib.Core.Bool.{Bool, true, false}
use mathlib.Core.Logic.{inl, inr}
use mathlib.Core.List.{List, [], ◌∷◌}
use mathlib.Core.List.{Perm}
use mathlib.Core.List.Perm
use native.Mathlib.Omega.{arith}
use fez_meshcore_controller.Prelude.Tests.{if◌then◌else◌, Bool-cases}
use fez_meshcore_controller.Prelude.Lists.{filter}
use fez_meshcore_controller.Prelude.Sorting.{
  swap, then_with, is_gt, is_eq, Chains, IsOrder, cmp_ℤ, cmp_text, insert_sorted, sort_by, IsBelow,
  IsSorted,
}

pub then_with-swaps :
    (o p o' p' : Ordering) → o' ≡ swap o → p' ≡ swap p → then_with o' p' ≡ swap (then_with o p)
then_with-swaps Ordering.lt p o' p' e f = cc (ap (λ r. then_with r p') e)
then_with-swaps Ordering.eq p o' p' e f = ap (λ r. then_with r p') e ∙ f
then_with-swaps Ordering.gt p o' p' e f = cc (ap (λ r. then_with r p') e)

pub compare-Chains : (a b d : ℕ) → Chains (compare a b) (compare b d) (compare a d)
compare-Chains a b d = ground arith

pub then_with-Chains :
    (o₁ o₂ o₃ p₁ p₂ p₃ : Ordering)
    → Chains o₁ o₂ o₃
    → Chains p₁ p₂ p₃
    → Chains (then_with o₁ p₁) (then_with o₂ p₂) (then_with o₃ p₃)
then_with-Chains o₁ o₂ o₃ p₁ p₂ p₃ h k = ground (arith, h, k)

pub cmp_ℤ-IsOrder : IsOrder cmp_ℤ
unfolding cmp_ℤ
cmp_ℤ-IsOrder = record { swaps = λ a b. ground arith; chains = λ a b d. ground arith }

cmp_text-swaps : (s t : List ℕ) → cmp_text t s ≡ swap (cmp_text s t)
unfolding cmp_text
cmp_text-swaps [] [] = refl
cmp_text-swaps [] (b ∷ t) = refl
cmp_text-swaps (a ∷ s) [] = refl
cmp_text-swaps (a ∷ s) (b ∷ t) =
    then_with-swaps (compare a b) (cmp_text s t) (compare b a) (cmp_text t s) (ground arith)
      (cmp_text-swaps s t)

lt-Chains : (o : Ordering) → Chains Ordering.lt o Ordering.lt
lt-Chains Ordering.lt = refl
lt-Chains Ordering.eq = refl
lt-Chains Ordering.gt = tt

Chains-gt : (o : Ordering) → Chains o Ordering.gt Ordering.gt
Chains-gt Ordering.lt = tt
Chains-gt Ordering.eq = refl
Chains-gt Ordering.gt = refl

cmp_text-Chains : (s t u : List ℕ) → Chains (cmp_text s t) (cmp_text t u) (cmp_text s u)
unfolding cmp_text
cmp_text-Chains [] [] [] = refl
cmp_text-Chains [] [] (d ∷ u) = refl
cmp_text-Chains [] (b ∷ t) [] = tt
cmp_text-Chains [] (b ∷ t) (d ∷ u) = lt-Chains (cmp_text (b ∷ t) (d ∷ u))
cmp_text-Chains (a ∷ s) [] [] = refl
cmp_text-Chains (a ∷ s) [] (d ∷ u) = tt
cmp_text-Chains (a ∷ s) (b ∷ t) [] = Chains-gt (cmp_text (a ∷ s) (b ∷ t))
cmp_text-Chains (a ∷ s) (b ∷ t) (d ∷ u) =
    then_with-Chains (compare a b) (compare b d) (compare a d) (cmp_text s t) (cmp_text t u)
      (cmp_text s u) (compare-Chains a b d) (cmp_text-Chains s t u)

pub cmp_text-IsOrder : IsOrder cmp_text
cmp_text-IsOrder = record { swaps = cmp_text-swaps; chains = cmp_text-Chains }

module _ {ℓ} {A : Type ℓ} (c : A → A → Ordering) where
  insert_sorted-Perm_go :
      (x y : A) (ys : List A) (b : Bool)
      → Perm (insert_sorted c x ys) (x ∷ ys)
      → Perm (if b then y ∷ insert_sorted c x ys else x ∷ y ∷ ys) (x ∷ y ∷ ys)
  insert_sorted-Perm_go x y ys true ih = Perm.trans (Perm.cons y ih) (Perm.swap _ _ _)
  insert_sorted-Perm_go x y ys false ih = Perm.rfl

  insert_sorted-Perm : (x : A) (ys : List A) → Perm (insert_sorted c x ys) (x ∷ ys)
  unfolding insert_sorted
  insert_sorted-Perm x [] = Perm.rfl
  insert_sorted-Perm x (y ∷ ys) =
      insert_sorted-Perm_go x y ys (is_gt (c x y)) (insert_sorted-Perm x ys)

  pub sort_by-Perm : (xs : List A) → Perm (sort_by c xs) xs
  unfolding sort_by
  sort_by-Perm [] = Perm.rfl
  sort_by-Perm (x ∷ xs) =
      Perm.trans (insert_sorted-Perm x (sort_by c xs)) (Perm.cons x (sort_by-Perm xs))

  -- A test that only elements equal to each other pass keeps what it picks in the order it had.
  module _ (p : A → Bool) (same : (x y : A) → p x ≡ true → p y ≡ true → is_gt (c x y) ≡ false) where
    filter-insert_sorted :
        (x : A) (ys : List A) → filter p (insert_sorted c x ys) ≡ filter p (x ∷ ys)
    unfolding insert_sorted
    filter-insert_sorted x [] = refl
    filter-insert_sorted x (y ∷ ys) = ground (arith, filter-insert_sorted x ys, same x y)

    pub filter-sort_by : (xs : List A) → filter p (sort_by c xs) ≡ filter p xs
    unfolding sort_by
    filter-sort_by [] = refl
    filter-sort_by (x ∷ xs) =
        filter-insert_sorted x (sort_by c xs) ∙ ground (arith, filter-sort_by xs)

  module _ (o : IsOrder c) where
    le_trans : (x y z : A) → is_gt (c x y) ≡ false → is_gt (c y z) ≡ false → is_gt (c x z) ≡ false
    le_trans x y z h k = ground (arith, o.chains x y z)

    not_gt-swap : (x y : A) → is_gt (c x y) ≡ true → is_gt (c y x) ≡ false
    not_gt-swap x y h = ground (arith, o.swaps x y)

    IsBelow-trans :
        (x y : A) (ys : List A) → is_gt (c x y) ≡ false → IsBelow c y ys → IsBelow c x ys
    IsBelow-trans x y [] h k = tt
    IsBelow-trans x y (z ∷ zs) h k = (le_trans x y z h k.0, IsBelow-trans x y zs h k.1)

    IsBelow-insert_sorted :
        (x y : A) (ys : List A)
        → is_gt (c y x) ≡ false
        → IsBelow c y ys
        → IsBelow c y (insert_sorted c x ys)
    unfolding insert_sorted
    IsBelow-insert_sorted x y [] h k = (h, tt)
    IsBelow-insert_sorted x y (z ∷ zs) h k = ground (arith, IsBelow-insert_sorted x y zs h k.1)

    insert_sorted-IsSorted :
        (x : A) (ys : List A) → IsSorted c ys → IsSorted c (insert_sorted c x ys)
    unfolding insert_sorted
    insert_sorted-IsSorted x [] s = (tt, tt)
    insert_sorted-IsSorted x (y ∷ ys) s = elim (Bool-cases (is_gt (c x y))) [
      | inl e ↦ ground (
        arith,
        insert_sorted-IsSorted x ys s.1,
        IsBelow-insert_sorted x y ys (not_gt-swap x y e) s.0,
      )
      | inr e ↦ ground (arith, IsBelow-trans x y ys e s.0)
    ]

    pub sort_by-IsSorted : (xs : List A) → IsSorted c (sort_by c xs)
    unfolding sort_by
    sort_by-IsSorted [] = tt
    sort_by-IsSorted (x ∷ xs) = insert_sorted-IsSorted x (sort_by c xs) (sort_by-IsSorted xs)

    -- Elements equal to `a` keep their order.
    pub sort_by-stable :
        (a : A) (xs : List A)
        → filter (λ x. is_eq (c a x)) (sort_by c xs) ≡ filter (λ x. is_eq (c a x)) xs
    sort_by-stable a =
        filter-sort_by (λ x. is_eq (c a x)) (λ x y h k. ground (arith, o.swaps a x, o.chains x a y))
