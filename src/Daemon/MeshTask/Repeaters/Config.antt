-- ===== src/Daemon/MeshTask/Repeaters/Config.antt =====
-- What a status change leaves in the configuration's list of repeaters.
use fez_meshcore_controller.Prelude.{
  Bool, Bool-cases, List, Option, Text, [], ap, arith, false, filter, if◌then◌else◌, inl, inr,
  length, length-map, map_option, none, refl, some, starts_with, suc, sym, to_ascii_lowercase, true,
  unwrap_or, ℕ, ◌∙◌, ◌∷◌, ◌≡◌, ◌≢◌, ◌≤◌,
}
use fez_meshcore_controller.Core.Config.{RepeaterStatus, ManagedRepeater, matches}
use fez_meshcore_controller.Core.Mesh.Contacts.{matching_repeater_status}
use fez_meshcore_controller.Daemon.MeshTask.Node.{Outside, Mesh}
use fez_meshcore_controller.Daemon.MeshTask.Repeaters.{
  new_repeater, update_repeater, upsert_at, upsert_repeaters, upsert_managed_repeater_config,
}

prefix_unique :
    (s p q : Text) → starts_with s p ≡ true → starts_with s q ≡ true → length p ≡ length q → p ≡ q
unfolding starts_with
prefix_unique s [] [] h k e = refl
prefix_unique s [] (y ∷ q) h k e = absurd (omega (arith, e))
prefix_unique s (x ∷ p) [] h k e = absurd (omega (arith, e))
prefix_unique [] (x ∷ p) (y ∷ q) h k e = cc
prefix_unique (c ∷ s) (x ∷ p) (y ∷ q) h k e = ground (arith, h, k, prefix_unique s p q)

-- The prefix of another key: as long, and different when the case of letters is ignored.
unfoldable pub IsOther : Text → Text → Type 0
IsOther prefix q = (length prefix ≡ length q) × (to_ascii_lowercase prefix ≢ to_ascii_lowercase q)

lower_lengths :
    (s t : Text)
    → length s ≡ length t
    → length (to_ascii_lowercase s) ≡ length (to_ascii_lowercase t)
unfolding to_ascii_lowercase
lower_lengths s t e = length-map s _ ∙ e ∙ sym (length-map t _)

starts_with_refl : (s : Text) → starts_with s s ≡ true
unfolding starts_with
starts_with_refl [] = refl
starts_with_refl (c ∷ s) = ground (arith, starts_with_refl s)

matches-other :
    (r : ManagedRepeater) (prefix q : Text)
    → IsOther prefix q
    → matches r prefix ≡ true
    → matches r q ≡ false
unfolding IsOther matches
matches-other r prefix q other h = elim (Bool-cases (matches r q)) [
  | inl k ↦ absurd (
      other.1 (
        prefix_unique (to_ascii_lowercase r.public_key_hex) (to_ascii_lowercase prefix)
          (to_ascii_lowercase q) h k (lower_lengths prefix q other.0)))
  | inr k ↦ k
]

-- A key that is resolved for the prefix begins with it.
unfoldable pub FitsKey : Text → Option Text → Type 0
FitsKey prefix none = Unit
FitsKey prefix (some key) = starts_with (to_ascii_lowercase key) (to_ascii_lowercase prefix) ≡ true

new-matches :
    (prefix name : Text) (resolved : Option Text) (status : RepeaterStatus)
    → FitsKey prefix resolved
    → matches (new_repeater name (unwrap_or resolved prefix) status) prefix ≡ true
unfolding matches FitsKey
new-matches prefix name none status fits = starts_with_refl (to_ascii_lowercase prefix)
new-matches prefix name (some key) status fits = fits

update-matches :
    (prefix name : Text) (resolved : Option Text) (status : RepeaterStatus) (r : ManagedRepeater)
    → FitsKey prefix resolved
    → matches r prefix ≡ true
    → matches (update_repeater name status resolved r) prefix ≡ true
unfolding matches FitsKey
update-matches prefix name none status r fits h = h
update-matches prefix name (some key) status r fits h = fits

-- How many entries the prefix matches.
abbrev pub entries_of : Text → List ManagedRepeater → ℕ
entries_of prefix rs = length (filter (λ r. matches r prefix) rs)

entries_hit :
    (prefix : Text) (r : ManagedRepeater) (rs : List ManagedRepeater)
    → matches r prefix ≡ true
    → entries_of prefix (r ∷ rs) ≡ suc (entries_of prefix rs)
entries_hit prefix r rs h = rw (h) refl

entries_miss :
    (prefix : Text) (r : ManagedRepeater) (rs : List ManagedRepeater)
    → matches r prefix ≡ false
    → entries_of prefix (r ∷ rs) ≡ entries_of prefix rs
entries_miss prefix r rs h = rw (h) refl

status_hit :
    (q : Text) (r : ManagedRepeater) (rs : List ManagedRepeater)
    → matches r q ≡ true
    → matching_repeater_status (r ∷ rs) q ≡ some r.status
unfolding matching_repeater_status
status_hit q r rs h = rw (h) refl

status_miss :
    (q : Text) (r : ManagedRepeater) (rs : List ManagedRepeater)
    → matches r q ≡ false
    → matching_repeater_status (r ∷ rs) q ≡ matching_repeater_status rs q
unfolding matching_repeater_status
status_miss q r rs h = rw (h) refl

unmatched :
    (prefix : Text) (rs : List ManagedRepeater)
    → entries_of prefix rs ≡ 0
    → matching_repeater_status rs prefix ≡ none
unfolding matching_repeater_status
unmatched prefix [] h = refl
unmatched prefix (r ∷ rs) h = elim (Bool-cases (matches r prefix)) [
  | inl e ↦ absurd (omega (arith, h, entries_hit prefix r rs e))
  | inr e ↦ status_miss prefix r rs e ∙ unmatched prefix rs (sym (entries_miss prefix r rs e) ∙ h)
]

-- Lists with the same head have the same status when their tails do.
skip_head :
    (q : Text) (r : ManagedRepeater) (rs ts : List ManagedRepeater)
    → matching_repeater_status rs q ≡ matching_repeater_status ts q
    → matching_repeater_status (r ∷ rs) q ≡ matching_repeater_status (r ∷ ts) q
skip_head q r rs ts h = elim (Bool-cases (matches r q)) [
  | inl e ↦ status_hit q r rs e ∙ sym (status_hit q r ts e)
  | inr e ↦ status_miss q r rs e ∙ h ∙ sym (status_miss q r ts e)
]

module _ (prefix name : Text) (resolved : Option Text) where
  -- An upsert at the head of the list.
  at_head : Option RepeaterStatus → ManagedRepeater → List ManagedRepeater → List ManagedRepeater
  at_head (some status) r rs = update_repeater name status resolved r ∷ rs
  at_head none r rs = rs

  upsert_at-suc :
      (status : Option RepeaterStatus) (i : Option ℕ) (r : ManagedRepeater)
      (rs : List ManagedRepeater)
      → upsert_at prefix name status resolved (map_option suc i) (r ∷ rs)
        ≡ r ∷ upsert_at prefix name status resolved i rs
  unfolding upsert_at
  upsert_at-suc (some status) (some i) r rs = refl
  upsert_at-suc (some status) none r rs = refl
  upsert_at-suc none (some i) r rs = refl
  upsert_at-suc none none r rs = refl

  upsert-cons :
      (status : Option RepeaterStatus) (r : ManagedRepeater) (rs : List ManagedRepeater) (b : Bool)
      → matches r prefix ≡ b
      → upsert_repeaters prefix name status resolved (r ∷ rs)
        ≡ (if b then at_head status r rs else r ∷ upsert_repeaters prefix name status resolved rs)
  unfolding upsert_repeaters upsert_at at_head
  upsert-cons (some status) r rs true e = rw (e) refl
  upsert-cons none r rs true e = rw (e) refl
  upsert-cons status r rs false e = rw (e) (upsert_at-suc status _ r rs)

  module _ (fits : FitsKey prefix resolved) where
    status-at_head :
        (status : Option RepeaterStatus) (r : ManagedRepeater) (rs : List ManagedRepeater)
        → matches r prefix ≡ true
        → entries_of prefix rs ≡ 0
        → matching_repeater_status (at_head status r rs) prefix ≡ status
    unfolding at_head
    status-at_head (some status) r rs e h =
        status_hit prefix (update_repeater name status resolved r) rs
          (update-matches prefix name resolved status r fits e)
    status-at_head none r rs e h = unmatched prefix rs h

    status_upserted :
        (status : Option RepeaterStatus) (rs : List ManagedRepeater)
        → entries_of prefix rs ≤ 1
        → matching_repeater_status (upsert_repeaters prefix name status resolved rs) prefix ≡ status
    unfolding upsert_repeaters upsert_at
    status_upserted (some status) [] h =
        status_hit prefix _ [] (new-matches prefix name resolved status fits)
    status_upserted none [] h = unmatched prefix [] refl
    status_upserted status (r ∷ rs) h = elim (Bool-cases (matches r prefix)) [
      | inl e ↦
          ap (λ l. matching_repeater_status l prefix) (upsert-cons status r rs true e)
          ∙ status-at_head status r rs e (omega (arith, h, entries_hit prefix r rs e))
      | inr e ↦
          ap (λ l. matching_repeater_status l prefix) (upsert-cons status r rs false e)
          ∙ status_miss prefix r _ e
          ∙ status_upserted status rs (omega (arith, h, entries_miss prefix r rs e))
    ]

    module _ (q : Text) (other : IsOther prefix q) where
      other-at_head :
          (status : Option RepeaterStatus) (r : ManagedRepeater) (rs : List ManagedRepeater)
          → matches r prefix ≡ true
          → matching_repeater_status (at_head status r rs) q ≡ matching_repeater_status rs q
      unfolding at_head
      other-at_head (some status) r rs e =
          status_miss q (update_repeater name status resolved r) rs
            (matches-other _ prefix q other (update-matches prefix name resolved status r fits e))
      other-at_head none r rs e = refl

      other_kept :
          (status : Option RepeaterStatus) (rs : List ManagedRepeater)
          → matching_repeater_status (upsert_repeaters prefix name status resolved rs) q
            ≡ matching_repeater_status rs q
      unfolding upsert_repeaters upsert_at
      other_kept (some status) [] =
          status_miss q (new_repeater name (unwrap_or resolved prefix) status) [] (
            matches-other (new_repeater name (unwrap_or resolved prefix) status) prefix q other
              (new-matches prefix name resolved status fits))
      other_kept none [] = refl
      other_kept status (r ∷ rs) = elim (Bool-cases (matches r prefix)) [
        | inl e ↦
            ap (λ l. matching_repeater_status l q) (upsert-cons status r rs true e)
            ∙ other-at_head status r rs e
            ∙ sym (status_miss q r rs (matches-other r prefix q other e))
        | inr e ↦
            ap (λ l. matching_repeater_status l q) (upsert-cons status r rs false e)
            ∙ skip_head q r _ _ (other_kept status rs)
      ]

-- The repeaters that the configuration has.
abbrev pub repeaters_of : {o : Outside} → Mesh o → List ManagedRepeater
repeaters_of s = s.state.config.managed_repeaters

module _ {o : Outside} where
  -- After a repeater's status is set or cleared, whether or not the file can be saved, the
  -- configuration gives its prefix this status, or none, and each other prefix of the same length
  -- the status that it had, when at most one entry had the prefix before and a key that was
  -- resolved for it begins with it.
  pub upsert_managed_repeater_config_status :
      (prefix name : Text) (status : Option RepeaterStatus) (resolved : Option Text) (s : Mesh o)
      (q : Text)
      → FitsKey prefix resolved
      → IsOther prefix q
      → entries_of prefix (repeaters_of s) ≤ 1
      → (matching_repeater_status
            (repeaters_of (upsert_managed_repeater_config prefix name status resolved s).1)
            prefix
          ≡ status)
        × (matching_repeater_status
              (repeaters_of (upsert_managed_repeater_config prefix name status resolved s).1)
              q
            ≡ matching_repeater_status (repeaters_of s) q)
  unfolding upsert_managed_repeater_config
  upsert_managed_repeater_config_status prefix name status resolved s q fits other h = (
    status_upserted prefix name resolved fits status (repeaters_of s) h,
    other_kept prefix name resolved fits q other status (repeaters_of s),
  )
