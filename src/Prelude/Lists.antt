-- ===== src/Prelude/Lists.antt =====
-- Lists measured, cut and searched by native numbers and Boolean tests.
use Prim.Native.Nat.{ℕ, zero, suc, ◌+◌, ◌-◌, ◌≤◌, min}
use mathlib.Core.Path.{◌≡◌, refl, ap, sym, subst, ◌∙◌}
use mathlib.Core.Bool.{Bool, true, false, ◌&&◌, ◌||◌}
use mathlib.Core.Logic.{◌⊎◌, ◌↔◌, inl, inr}
use mathlib.Core.List.{List, [], ◌∷◌, ◌++◌, map}
use mathlib.Core.Option.{Option, none, some}
use native.Mathlib.Omega.{arith}
use fez_meshcore_controller.Prelude.Tests.{if◌then◌else◌, map_option}

module _ {ℓ} {A : Type ℓ} where
  abbrev pub length : List A → ℕ
  length [] = 0
  length (x ∷ xs) = suc (length xs)

  abbrev pub get_elem? : List A → ℕ → Option A
  get_elem? [] i = none
  get_elem? (x ∷ xs) zero = some x
  get_elem? (x ∷ xs) (suc i) = get_elem? xs i

  abbrev pub get_or : List A → ℕ → A → A
  get_or [] i d = d
  get_or (x ∷ xs) zero d = x
  get_or (x ∷ xs) (suc i) d = get_or xs i d

  -- A write out of bounds changes nothing.
  abbrev pub modify : List A → ℕ → (A → A) → List A
  modify [] i f = []
  modify (x ∷ xs) zero f = f x ∷ xs
  modify (x ∷ xs) (suc i) f = x ∷ modify xs i f

  -- `Vec::remove`, at an index in range.
  abbrev pub remove_at : List A → ℕ → List A
  remove_at [] i = []
  remove_at (x ∷ xs) zero = xs
  remove_at (x ∷ xs) (suc i) = x ∷ remove_at xs i

  abbrev pub take : ℕ → List A → List A
  take zero xs = []
  take (suc n) [] = []
  take (suc n) (x ∷ xs) = x ∷ take n xs

  abbrev pub drop : ℕ → List A → List A
  drop zero xs = xs
  drop (suc n) [] = []
  drop (suc n) (x ∷ xs) = drop n xs

  abbrev pub replicate : ℕ → A → List A
  replicate zero a = []
  replicate (suc n) a = a ∷ replicate n a

  -- `pop_back` of a deque, without its result.
  abbrev pub drop_last : List A → List A
  drop_last [] = []
  drop_last (x ∷ []) = []
  drop_last (x ∷ y ∷ xs) = x ∷ drop_last (y ∷ xs)

  abbrev pub is_empty : List A → Bool
  is_empty [] = true
  is_empty (x ∷ xs) = false

  -- `iter().any`, `iter().all`, `iter().find`, `iter().filter` and `iter().position`.
  abbrev pub any : (A → Bool) → List A → Bool
  any p [] = false
  any p (x ∷ xs) = p x || any p xs

  abbrev pub all : (A → Bool) → List A → Bool
  all p [] = true
  all p (x ∷ xs) = p x && all p xs

  abbrev pub find : (A → Bool) → List A → Option A
  find p [] = none
  find p (x ∷ xs) = if p x then some x else find p xs

  abbrev pub filter : (A → Bool) → List A → List A
  filter p [] = []
  filter p (x ∷ xs) = let rest = filter p xs in if p x then x ∷ rest else rest

  abbrev pub position : (A → Bool) → List A → Option ℕ
  position p [] = none
  position p (x ∷ xs) = if p x then some 0 else map_option suc (position p xs)

  pub length-append : (xs ys : List A) → length (xs ++ ys) ≡ length xs + length ys
  length-append [] ys = omega arith
  length-append (x ∷ xs) ys = omega (arith, length-append xs ys)

  pub length-take : (n : ℕ) (xs : List A) → length (take n xs) ≡ min n (length xs)
  length-take zero xs = omega arith
  length-take (suc n) [] = omega arith
  length-take (suc n) (x ∷ xs) = omega (arith, length-take n xs)

  pub length-drop : (n : ℕ) (xs : List A) → length (drop n xs) ≡ length xs - n
  length-drop zero xs = omega arith
  length-drop (suc n) [] = omega arith
  length-drop (suc n) (x ∷ xs) = omega (arith, length-drop n xs)

  pub length-replicate : (n : ℕ) (a : A) → length (replicate n a) ≡ n
  length-replicate zero a = refl
  length-replicate (suc n) a = ap suc (length-replicate n a)

  pub take-append : (xs ys : List A) → take (length xs) (xs ++ ys) ≡ xs
  take-append [] ys = refl
  take-append (x ∷ xs) ys = ap (λ l. x ∷ l) (take-append xs ys)

  pub drop-append : (xs ys : List A) → drop (length xs) (xs ++ ys) ≡ ys
  drop-append [] ys = refl
  drop-append (x ∷ xs) ys = drop-append xs ys

  pub take-eq_self : (n : ℕ) (xs : List A) → length xs ≤ n → take n xs ≡ xs
  take-eq_self zero [] h = refl
  take-eq_self zero (x ∷ xs) h = absurd (omega arith)
  take-eq_self (suc n) [] h = refl
  take-eq_self (suc n) (x ∷ xs) h = ap (λ l. x ∷ l) (take-eq_self n xs (omega arith))

  pub take-append-drop : (n : ℕ) (xs : List A) → take n xs ++ drop n xs ≡ xs
  take-append-drop zero xs = refl
  take-append-drop (suc n) [] = refl
  take-append-drop (suc n) (x ∷ xs) = ap (λ l. x ∷ l) (take-append-drop n xs)

  -- A predicate of each element, by recursion, so that the tactics read it.
  abbrev pub All {κ} : (A → Type κ) → List A → Type κ
  All P [] = Unit
  All P (x ∷ xs) = P x × All P xs

-- Membership by recursion.
abbrev pub Member : {A : Type 0} → A → List A → Type 0
Member a [] = ⊥
Member a (x ∷ xs) = (a ≡ x) ⊎ Member a xs

module _ {A : Type 0} where
  pub All-members : (P : A → Type 0) (xs : List A) → ((a : A) → Member a xs → P a) → All P xs
  All-members P [] h = tt
  All-members P (x ∷ xs) h = (h x (inl refl), All-members P xs (λ a m. h a (inr m)))

  pub All-mono : (P Q : A → Type 0) (xs : List A) → ((a : A) → P a → Q a) → All P xs → All Q xs
  All-mono P Q [] k h = tt
  All-mono P Q (x ∷ xs) k h = (k x h.0, All-mono P Q xs k h.1)

  pub All-append : (P : A → Type 0) (xs ys : List A) → All P xs → All P ys → All P (xs ++ ys)
  All-append P [] ys h k = k
  All-append P (x ∷ xs) ys h k = (h.0, All-append P xs ys h.1 k)

  pub member-All : (P : A → Type 0) (a : A) (xs : List A) → All P xs → Member a xs → P a
  member-All P a [] h m = absurd m
  member-All P a (x ∷ xs) h (inl e) = subst P (sym e) h.0
  member-All P a (x ∷ xs) h (inr m) = member-All P a xs h.1 m

  pub any-Member : (f : A → Bool) (a : A) (xs : List A) → Member a xs → f a ≡ true → any f xs ≡ true
  any-Member f a [] l h = absurd l
  any-Member f a (x ∷ xs) (inl e) h = rw (sym (ap f e), h) refl
  any-Member f a (x ∷ xs) (inr l) h = ground (arith, any-Member f a xs l h)

  pub any-append : (p : A → Bool) (xs ys : List A) → any p (xs ++ ys) ≡ (any p xs || any p ys)
  any-append p [] ys = refl
  any-append p (x ∷ xs) ys = ground (arith, any-append p xs ys)

module _ {κ} {B : Type κ} where
  abbrev pub prepend? : Option B → List B → List B
  prepend? none rest = rest
  prepend? (some b) rest = b ∷ rest

  abbrev pub first_or : Option B → Option B → Option B
  first_or none rest = rest
  first_or (some b) rest = some b

-- `iter().filter_map` and `iter().find_map`.
module _ {ℓ κ} {A : Type ℓ} {B : Type κ} where
  abbrev pub filter_map : (A → Option B) → List A → List B
  filter_map f [] = []
  filter_map f (x ∷ xs) = prepend? (f x) (filter_map f xs)

  abbrev pub find_map : (A → Option B) → List A → Option B
  find_map f [] = none
  find_map f (x ∷ xs) = first_or (f x) (find_map f xs)

  pub length-map : (xs : List A) (f : A → B) → length (map f xs) ≡ length xs
  length-map [] f = refl
  length-map (x ∷ xs) f = ap suc (length-map xs f)

mem-filter_go :
    {A : Type 0} (p : A → Bool) (c x : A) (xs : List A) (b : Bool)
    → p x ≡ b
    → Member c (filter p xs) ↔ (Member c xs × (p c ≡ true))
    → Member c (if b then x ∷ filter p xs else filter p xs) ↔ ((c ≡ x) ⊎ Member c xs) × (p c ≡ true)
mem-filter_go p c x xs true e ih = (
  λ m. elim m [ inl q ↦ (inl q, ap p q ∙ e) | inr r ↦ (inr (ih.0 r).0, (ih.0 r).1) ],
  λ m. elim m.0 [ inl q ↦ inl q | inr r ↦ inr (ih.1 (r, m.1)) ],
)
mem-filter_go p c x xs false e ih = (
  λ m. (inr (ih.0 m).0, (ih.0 m).1),
  λ m. elim m.0 [ inl q ↦ cc (ap p q, e, m.1) | inr r ↦ ih.1 (r, m.1) ],
)

pub mem-filter :
    {A : Type 0} (p : A → Bool) (c : A) (xs : List A)
    → Member c (filter p xs) ↔ (Member c xs × (p c ≡ true))
mem-filter p c [] = (λ m. absurd m, λ m. m.0)
mem-filter p c (x ∷ xs) = mem-filter_go p c x xs (p x) refl (mem-filter p c xs)
