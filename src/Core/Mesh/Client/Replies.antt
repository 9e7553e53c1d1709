-- ===== src/Core/Mesh/Client/Replies.antt =====
-- The wait for a reply to the region command.
use fez_meshcore_controller.Prelude.{
  Bool-cases, Option, Option-cases, Text, arith, codes, inl, inr, none, refl, some, suc, text_eq,
  text_eq_iff, zero, ℕ, ◌+◌, ◌-◌, ◌<◌, ◌==◌, ◌≡◌, ◌≤◌, ◌⊎◌,
}
use fez_meshcore_controller.Core.Mesh.{RegionHierarchyDto}
use fez_meshcore_controller.Core.Mesh.Client.{
  MeshCore, mesh_error, no_reply, text_from, reply_timeout, resolve_contact, with_contact,
  wait_for_reply, wait_until, request_region_hierarchy,
}
use fez_meshcore_controller.Core.Mesh.Detail.{Outcome, ok, err}
use fez_meshcore_controller.Core.Mesh.Regions.{parse_region_hierarchy}
use fez_meshcore_controller.Core.Mesh.Source.{
  Contact, ContactMessage, EventPayload, EventType, MeshCoreEvent, contact_message,
  contact_msg_recv,
}
use fez_meshcore_controller.Core.Hex.{Bytes}

-- The message of a payload comes from the contact with a prefix.
abbrev pub IsFrom : Bytes → EventPayload → ContactMessage → Type 0
IsFrom prefix payload msg = (payload ≡ contact_message msg) × (msg.sender_prefix ≡ prefix)

text_from-IsFrom :
    (prefix : Bytes) (payload : EventPayload)
    → ((msg : ContactMessage) × IsFrom prefix payload msg
        × (text_from prefix payload ≡ some msg.text))
      ⊎ (((msg : ContactMessage) → ¬ IsFrom prefix payload msg) × (text_from prefix payload ≡ none))
unfolding text_from
text_from-IsFrom prefix (contact_message msg) =
    elim (Bool-cases (text_eq msg.sender_prefix prefix)) [
      | inl e ↦ inl (msg, (refl, (text_eq_iff _ _).0 e), rw e refl)
      | inr e ↦
          inr (λ other f. ground (arith, e, f, text_eq_iff msg.sender_prefix prefix), rw e refl)
    ]
text_from-IsFrom prefix payload = inr (λ msg f. ground (arith, f), refl)

-- A wait for an event takes time. It is needed for the fuel only: a clock that stands still could
-- let the wait go on for ever.
abbrev pub TakesTime : MeshCore → Type 0
TakesTime m =
    (t : EventType) (remaining : ℕ) (w : m.World)
    → m.nanos w < m.nanos (m.wait_for_event t remaining w).1

module _ (m : MeshCore) (prefix_hex : Text) (contact : Contact) (deadline : ℕ) where
  abbrev pub waited : m.World → Option MeshCoreEvent × m.World
  waited w = m.wait_for_event contact_msg_recv (deadline - m.nanos w) w

  abbrev pub IsReply : MeshCoreEvent → ContactMessage → Type 0
  IsReply e msg = IsFrom (m.contact.prefix contact) e.payload msg

  -- What the wait from a world ends with: nothing of the messages of others.
  pub data Ends : m.World → Outcome RegionHierarchyDto × m.World → Type 0 where
    late : {w : m.World} → deadline ≤ m.nanos w → Ends w (err (no_reply prefix_hex), w)
    silent :
        {w : m.World}
        → m.nanos w < deadline
        → (waited w).0 ≡ none
        → Ends w (err (no_reply prefix_hex), (waited w).1)
    replied :
        {w : m.World} {e : MeshCoreEvent} {msg : ContactMessage}
        → m.nanos w < deadline
        → (waited w).0 ≡ some e
        → IsReply e msg
        → Ends w (ok (parse_region_hierarchy msg.text (m.timestamp (waited w).1)), (waited w).1)
    skipped :
        {w : m.World} {e : MeshCoreEvent} {r : Outcome RegionHierarchyDto × m.World}
        → m.nanos w < deadline
        → (waited w).0 ≡ some e
        → ((msg : ContactMessage) → ¬ IsReply e msg)
        → Ends (waited w).1 r
        → Ends w r

  -- With fuel for the time that is left, the wait ends: at the deadline, at a wait that gives
  -- nothing, or at the contact's first message, whose text is read; it skips all other messages.
  wait_for_reply-Ends :
      (fuel : ℕ) (w : m.World)
      → TakesTime m
      → deadline - m.nanos w < fuel
      → Ends w (wait_for_reply m fuel prefix_hex contact deadline w)
  unfolding wait_for_reply
  wait_for_reply-Ends zero w later h = absurd (omega (arith, h))
  wait_for_reply-Ends (suc fuel) w later h = elim (Bool-cases ((deadline - m.nanos w) == 0)) [
    | inl e ↦ rw e (late (ground (arith, e)))
    | inr e ↦
        let more : m.nanos w < deadline = ground (arith, e) in
        rw e (elim (Option-cases (waited w).0) [
          | inl q ↦ rw q (silent more q)
          | inr (v, q) ↦ rw q (elim (text_from-IsFrom (m.contact.prefix contact) v.payload) [
            | inl (msg, f, t) ↦ rw t (replied more q f)
            | inr (other, t) ↦ rw t (
                skipped more q other (
                  wait_for_reply-Ends fuel (waited w).1 later
                    (omega (arith, h, more, later contact_msg_recv (deadline - m.nanos w) w))))
          ])
        ])
  ]

  wait_until-Ends :
      (w : m.World) → TakesTime m → Ends w (wait_until m deadline prefix_hex contact w)
  unfolding wait_until
  wait_until-Ends w later = wait_for_reply-Ends (suc (deadline - m.nanos w)) w later (omega arith)

Outcome-cases :
    {A : Type 0} (r : Outcome A) → ((a : A) × (r ≡ ok a)) ⊎ ((reason : Text) × (r ≡ err reason))
Outcome-cases (ok a) = inl (a, refl)
Outcome-cases (err reason) = inr (reason, refl)

module _ (m : MeshCore) (prefix_hex : Text) (w : m.World) where
  abbrev pub resolved : Outcome Contact × m.World
  unfolding resolve_contact
  resolved = resolve_contact m prefix_hex w

  abbrev pub sent : Contact → Outcome (Unit {0}) × m.World
  sent c = m.send_msg c (codes "region") resolved.1

  -- What a request ends with. The deadline counts from when the command is sent.
  pub data Asked : Outcome RegionHierarchyDto × m.World → Type 0 where
    unresolved : {reason : Text} → resolved.0 ≡ err reason → Asked (err reason, resolved.1)
    unsent :
        {c : Contact} {reason : Text}
        → resolved.0 ≡ ok c
        → (sent c).0 ≡ err reason
        → Asked (err (mesh_error reason), (sent c).1)
    waits :
        {c : Contact} {r : Outcome RegionHierarchyDto × m.World}
        → resolved.0 ≡ ok c
        → (sent c).0 ≡ ok tt
        → Ends m prefix_hex c (m.nanos (sent c).1 + reply_timeout) (sent c).1 r
        → Asked r

  -- If each wait takes time, a request for the regions ends: with the error of the contact's lookup,
  -- with that of the sending, or with what a wait of 15 seconds gives, which skips the messages of
  -- others and reads the contact's first.
  pub request_region_hierarchy-Asked : TakesTime m → Asked (request_region_hierarchy m prefix_hex w)
  unfolding request_region_hierarchy with_contact
  request_region_hierarchy-Asked later = elim (Outcome-cases resolved.0) [
    | inr (reason, e) ↦ rw e (unresolved e)
    | inl (c, e) ↦ elim (Outcome-cases (sent c).0) [
      | inr (reason, d) ↦ rw (e, d) (unsent e d)
      | inl (u, d) ↦ rw (e, d) (waits e d (wait_until-Ends m prefix_hex c _ (sent c).1 later))
    ]
  ]
