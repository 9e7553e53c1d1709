-- ===== src/Cli/Repeater/Unique.antt =====
-- `find_contact` finds the one contact of a prefix.
use fez_meshcore_controller.Prelude.{
  All, Bool, Bool-cases, List, Text, [], arith, false, filter, if◌then◌else◌, inl, inr, is_empty,
  refl, to_ascii_lowercase, true, ◌↔◌, ◌∷◌, ◌≡◌, ◌≢◌, ◌⊎◌,
}
use fez_meshcore_controller.Core.Mesh.{ContactDto}
use fez_meshcore_controller.Core.Mesh.Detail.{ok, err}
use fez_meshcore_controller.Core.Ipc.{Snapshot}
use fez_meshcore_controller.Cli.Repeater.{trim, has_prefix, single_match, find_contact}

-- Exactly one element of the list, and it is `c`, passes the test.
abbrev pub IsOnly : {A : Type 0} → (A → Bool) → A → List A → Type 0
IsOnly p c [] = ⊥
IsOnly p c (x ∷ xs) =
    ((x ≡ c) × (p x ≡ true) × All (λ y. p y ≡ false) xs) ⊎ ((p x ≡ false) × IsOnly p c xs)

filter_none :
    {A : Type 0} (p : A → Bool) (xs : List A) → filter p xs ≡ [] ↔ All (λ y. p y ≡ false) xs
filter_none p [] = (λ h. tt, λ h. refl)
filter_none p (x ∷ xs) = elim (Bool-cases (p x)) [
  | inl e ↦ (λ h. absurd (ground (arith, h, e)), λ h. absurd (ground (arith, h.0, e)))
  | inr e ↦
      (λ h. (e, (filter_none p xs).0 (cc (h, e))), λ h. rw (h.0, (filter_none p xs).1 h.1) refl)
]

-- A list is filtered to one element exactly if only this one passes.
filter-IsOnly :
    {A : Type 0} (p : A → Bool) (c : A) (xs : List A) → filter p xs ≡ c ∷ [] ↔ IsOnly p c xs
filter-IsOnly p c [] = (λ h. absurd (ground (arith, h)), λ h. absurd h)
filter-IsOnly p c (x ∷ xs) = elim (Bool-cases (p x)) [
  | inl e ↦ (
    λ h. inl (ground (arith, h, e), e, (filter_none p xs).0 (ground (arith, h, e))),
    λ h. elim h [
      | inl m ↦ rw (m.1, (filter_none p xs).1 m.2, m.0) refl
      | inr m ↦ absurd (ground (arith, m.0, e))
    ],
  )
  | inr e ↦ (
    λ h. inr (e, (filter-IsOnly p c xs).0 (ground (arith, h, e))),
    λ h. elim h [
      | inl m ↦ absurd (ground (arith, m.1, e))
      | inr m ↦ rw (e, (filter-IsOnly p c xs).1 m.1) refl
    ],
  )
]

single_match_only :
    (input : Text) (c : ContactDto) (cs : List ContactDto)
    → (single_match input cs ≡ ok c) ↔ (cs ≡ c ∷ [])
unfolding single_match
single_match_only input c [] = (λ h. ground (arith, h), λ h. ground (arith, h))
single_match_only input c (x ∷ []) = (λ h. ground (arith, h), λ h. ground (arith, h))
single_match_only input c (x ∷ y ∷ more) = (λ h. ground (arith, h), λ h. ground (arith, h))

found_by :
    (input message needle : Text) (c : ContactDto) (cs : List ContactDto)
    → ((if is_empty needle then err message else single_match input (filter (has_prefix needle) cs))
        ≡ ok c)
      ↔ ((needle ≢ []) × IsOnly (has_prefix needle) c cs)
found_by input message [] c cs = (λ h. ground (arith, h), λ h. absurd (h.0 refl))
found_by input message (k ∷ needle) c cs =
    let only = filter-IsOnly (has_prefix (k ∷ needle)) c cs in
    let one = single_match_only input c (filter (has_prefix (k ∷ needle)) cs) in
    (λ h. (λ e. ground (arith, e), only.0 (one.0 h)), λ h. one.1 (only.1 h.1))

-- A contact is found exactly if the argument, trimmed and in lower case, is not empty and this
-- contact is the only one, at one place of the list, whose key prefix begins with it; in every
-- other case the result is an error.
pub find_contact-IsOnly :
    (snapshot : Snapshot) (input : Text) (c : ContactDto)
    → (find_contact snapshot input ≡ ok c) ↔ (
        (to_ascii_lowercase (trim input) ≢ [])
        × IsOnly (has_prefix (to_ascii_lowercase (trim input))) c snapshot.contacts)
unfolding find_contact
find_contact-IsOnly snapshot input c =
    found_by input _ (to_ascii_lowercase (trim input)) c snapshot.contacts
