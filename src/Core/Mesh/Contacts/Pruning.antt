-- ===== src/Core/Mesh/Contacts/Pruning.antt =====
-- What the observer-node enforcement may prune.
use fez_meshcore_controller.Prelude.{
  Bool, Bool-cases, List, Member, Option, Text, [], any, ap, arith, false, inl, inr, mem-filter,
  none, not, refl, some, starts_with, starts_with-append, to_ascii_lowercase, true, ◌++◌, ◌↔◌, ◌∙◌,
  ◌∷◌, ◌≡◌,
}
use fez_meshcore_controller.Core.Config.{ManagedRepeater, RepeaterStatus, matches}
use fez_meshcore_controller.Core.Mesh.{ContactDto}
use fez_meshcore_controller.Core.Mesh.Contacts.{contacts_to_prune, matching_repeater_status}

-- A prefix has a status exactly if some entry matches it, whatever the entry's tier.
pub status-none_iff :
    (ms : List ManagedRepeater) (prefix : Text)
    → (matching_repeater_status ms prefix ≡ none) ↔ (any (λ r. matches r prefix) ms ≡ false)
unfolding matching_repeater_status
status-none_iff [] prefix = ground arith
status-none_iff (r ∷ ms) prefix = ground (arith, status-none_iff ms prefix)

not-true : (b : Bool) → not b ≡ true → b ≡ false
not-true true h = cc
not-true false h = refl

-- A contact is pruned exactly if it is a contact and no managed repeater of any tier gives its
-- key prefix a status.
pub mem-contacts_to_prune :
    (c : ContactDto) (cs : List ContactDto) (ms : List ManagedRepeater)
    → Member c (contacts_to_prune cs ms)
      ↔ (Member c cs × (matching_repeater_status ms c.public_key_prefix_hex ≡ none))
unfolding contacts_to_prune
mem-contacts_to_prune c cs ms =
    let kept = mem-filter (λ d. not (any (λ r. matches r d.public_key_prefix_hex) ms)) c cs in
    let tier = status-none_iff ms c.public_key_prefix_hex in
    (λ m. ((kept.0 m).0, tier.1 (not-true _ (kept.0 m).1)), λ m. kept.1 (m.0, rw (tier.0 m.1)))

-- The repeater's key begins with the prefix, whatever the case of the digits.
abbrev pub Owns : ManagedRepeater → Text → Type 0
Owns r prefix =
    (rest : Text) × (to_ascii_lowercase r.public_key_hex ≡ to_ascii_lowercase prefix ++ rest)

-- What is left of a list of contacts to remove: those that no repeater owns, in order.
pub data IsPruning (rs : List ManagedRepeater) : List ContactDto → List ContactDto → Type 0 where
  nothing_left : IsPruning rs [] []
  owned :
      {c : ContactDto} {cs ps : List ContactDto} (r : ManagedRepeater)
      → Member r rs
      → Owns r c.public_key_prefix_hex
      → IsPruning rs cs ps
      → IsPruning rs (c ∷ cs) ps
  stray :
      {c : ContactDto} {cs ps : List ContactDto}
      → ((r : ManagedRepeater) → Member r rs → ¬ Owns r c.public_key_prefix_hex)
      → IsPruning rs cs ps
      → IsPruning rs (c ∷ cs) (c ∷ ps)

starts_with-rest : (s t : Text) → starts_with s t ≡ true → (rest : Text) × (s ≡ t ++ rest)
unfolding starts_with
starts_with-rest s [] h = (s, refl)
starts_with-rest [] (p ∷ t) h = absurd (ground (arith, h))
starts_with-rest (c ∷ s) (p ∷ t) h =
    let (rest, e) = starts_with-rest s t (ground (arith, h)) in
    let same : c ≡ p = ground (arith, h) in (rest, ap (λ d. d ∷ s) same ∙ ap (λ l. p ∷ l) e)

pub matches-Owns : (r : ManagedRepeater) (prefix : Text) → (matches r prefix ≡ true) ↔ Owns r prefix
unfolding matches
matches-Owns r prefix =
    (λ h. starts_with-rest _ _ h, λ o. rw o.1 (starts_with-append (to_ascii_lowercase prefix) o.0))

any-owner :
    (rs : List ManagedRepeater) (prefix : Text)
    → any (λ r. matches r prefix) rs ≡ true
    → (r : ManagedRepeater) × Member r rs × Owns r prefix
any-owner [] prefix h = absurd (cc)
any-owner (r ∷ rs) prefix h = elim (Bool-cases (matches r prefix)) [
  | inl e ↦ (r, inl refl, (matches-Owns r prefix).0 e)
  | inr e ↦ let (q, m, o) = any-owner rs prefix (ground (arith, e, h)) in (q, inr m, o)
]

no-owner :
    (rs : List ManagedRepeater) (prefix : Text)
    → any (λ r. matches r prefix) rs ≡ false
    → (r : ManagedRepeater) → Member r rs
    → ¬ Owns r prefix
no-owner [] prefix h r m o = m
no-owner (q ∷ rs) prefix h r (inl e) o =
    let yes : matches q prefix ≡ true = rw (← e) ((matches-Owns r prefix).1 o) in
    ground (arith, h, yes)
no-owner (q ∷ rs) prefix h r (inr m) o = no-owner rs prefix (ground (arith, h)) r m o

pub contacts_to_prune-IsPruning :
    (cs : List ContactDto) (rs : List ManagedRepeater) → IsPruning rs cs (contacts_to_prune cs rs)
unfolding contacts_to_prune
contacts_to_prune-IsPruning [] rs = nothing_left
contacts_to_prune-IsPruning (c ∷ cs) rs =
    elim (Bool-cases (any (λ r. matches r c.public_key_prefix_hex) rs)) [
      | inl e ↦
          let (r, m, o) = any-owner rs c.public_key_prefix_hex e in
          rw e (owned r m o (contacts_to_prune-IsPruning cs rs))
      | inr e ↦
          rw e (stray (no-owner rs c.public_key_prefix_hex e) (contacts_to_prune-IsPruning cs rs))
    ]

-- The status of a prefix is that of the first repeater that owns it.
pub data IsStatusOf : List ManagedRepeater → Text → Option RepeaterStatus → Type 0 where
  unlisted : {prefix : Text} → IsStatusOf [] prefix none
  first :
      {r : ManagedRepeater} {rs : List ManagedRepeater} {prefix : Text}
      → Owns r prefix
      → IsStatusOf (r ∷ rs) prefix (some r.status)
  another :
      {r : ManagedRepeater} {rs : List ManagedRepeater} {prefix : Text}
      {status : Option RepeaterStatus}
      → ¬ Owns r prefix
      → IsStatusOf rs prefix status
      → IsStatusOf (r ∷ rs) prefix status

pub matching_repeater_status-IsStatusOf :
    (rs : List ManagedRepeater) (prefix : Text)
    → IsStatusOf rs prefix (matching_repeater_status rs prefix)
unfolding matching_repeater_status
matching_repeater_status-IsStatusOf [] prefix = unlisted
matching_repeater_status-IsStatusOf (r ∷ rs) prefix = elim (Bool-cases (matches r prefix)) [
  | inl e ↦ rw e (first ((matches-Owns r prefix).0 e))
  | inr e ↦
      let other : ¬ Owns r prefix =
        λ o. let yes = (matches-Owns r prefix).1 o in ground (arith, e, yes) in
      rw e (another other (matching_repeater_status-IsStatusOf rs prefix))
]
