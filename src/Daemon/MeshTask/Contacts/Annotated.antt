-- ===== src/Daemon/MeshTask/Contacts/Annotated.antt =====
-- What the contact list that clients are shown holds.
use fez_meshcore_controller.Prelude.{
  All, All-append, All-members, Bool, List, Member, Option, Text, [], any, any-append, ap, arith,
  false, filter, inl, inr, map, none, not, refl, some, text_eq, text_eq_refl, true, ◌&&◌, ◌||◌, ◌↔◌,
  ◌∙◌, ◌∷◌, ◌≡◌, ◌⊎◌,
}
use fez_meshcore_controller.Prelude.Map.{HashMap, lookup}
use fez_meshcore_controller.Core.Config.{
  ManagedRepeater, RepeaterStatus, managed, supervised, known,
}
use fez_meshcore_controller.Core.Mesh.Contacts.Pruning.{
  IsStatusOf, matching_repeater_status-IsStatusOf,
}
use fez_meshcore_controller.Core.Mesh.{ContactDto, DiscoveredNode, TelemetryDto}
use fez_meshcore_controller.Core.Mesh.Detail.{Outcome, ok, err}
use fez_meshcore_controller.Daemon.State.{AppState}
use fez_meshcore_controller.Daemon.MeshTask.Node.{Outside, Mesh}
use fez_meshcore_controller.Daemon.MeshTask.Contacts.{
  is_managed_status, annotate, discovered_contact, merge_contacts, contacts_or_cached,
  build_snapshot_contacts, refresh_snapshot_contacts,
}

-- The contact shows the configured status of its prefix, is marked as managed exactly if this is
-- managed or supervised, and shows its last telemetry.
abbrev pub IsAnnotated : List ManagedRepeater → HashMap TelemetryDto → ContactDto → Type 0
IsAnnotated repeaters telemetry c =
    IsStatusOf repeaters c.public_key_prefix_hex c.repeater_status
    × ((c.managed ≡ true)
        ↔ ((c.repeater_status ≡ some managed) ⊎ (c.repeater_status ≡ some supervised)))
    × (c.last_telemetry ≡ lookup c.public_key_prefix_hex telemetry)

is_managed_status_iff :
    (status : Option RepeaterStatus)
    → (is_managed_status status ≡ true) ↔ ((status ≡ some managed) ⊎ (status ≡ some supervised))
is_managed_status_iff none = ground arith
is_managed_status_iff (some managed) = ground arith
is_managed_status_iff (some supervised) = ground arith
is_managed_status_iff (some known) = ground arith

abbrev pub has_prefix : List ContactDto → Text → Bool
has_prefix contacts prefix = any (λ c. text_eq c.public_key_prefix_hex prefix) contacts

-- The prefix of each node is in the list.
abbrev pub AreListed : List ContactDto → List DiscoveredNode → Type 0
AreListed contacts = All λ node. has_prefix contacts node.public_key_prefix_hex ≡ true

-- The prefix of each contact is in the list.
abbrev pub AreKept : List ContactDto → List ContactDto → Type 0
AreKept contacts = All λ c. has_prefix contacts c.public_key_prefix_hex ≡ true

has_prefix-own :
    (c : ContactDto) (contacts : List ContactDto)
    → Member c contacts
    → has_prefix contacts c.public_key_prefix_hex ≡ true
has_prefix-own c [] m = absurd m
has_prefix-own c (d ∷ contacts) (inl e) =
    rw
      (ap (λ k. text_eq d.public_key_prefix_hex k.public_key_prefix_hex) e
        ∙ text_eq_refl d.public_key_prefix_hex)
      refl
has_prefix-own c (d ∷ contacts) (inr m) = ground (arith, has_prefix-own c contacts m)

All-map :
    {A B : Type 0} (P : B → Type 0) (f : A → B) (xs : List A)
    → ((a : A) → P (f a))
    → All P (map f xs)
All-map P f [] h = tt
All-map P f (x ∷ xs) h = (h x, All-map P f xs h)

module _ (repeaters : List ManagedRepeater) (telemetry : HashMap TelemetryDto) where
  annotate-IsAnnotated :
      (c : ContactDto) → IsAnnotated repeaters telemetry (annotate repeaters telemetry c)
  unfolding annotate
  annotate-IsAnnotated c =
      (matching_repeater_status-IsStatusOf repeaters _, is_managed_status_iff _, refl)

  discovered-IsAnnotated :
      (n : DiscoveredNode)
      → IsAnnotated repeaters telemetry (discovered_contact repeaters telemetry n)
  unfolding discovered_contact
  discovered-IsAnnotated n =
      (matching_repeater_status-IsStatusOf repeaters _, is_managed_status_iff _, refl)

  merge-AreAnnotated :
      (contacts : List ContactDto) (discovered : List DiscoveredNode)
      → All
          (IsAnnotated repeaters telemetry)
          (merge_contacts repeaters telemetry contacts discovered)
  unfolding merge_contacts
  merge-AreAnnotated contacts discovered =
      All-append _ _ _ (All-map _ _ contacts annotate-IsAnnotated)
        (All-map _ _ _ discovered-IsAnnotated)

  has_prefix-annotate :
      (contacts : List ContactDto) (prefix : Text)
      → has_prefix (map (annotate repeaters telemetry) contacts) prefix ≡ has_prefix contacts prefix
  unfolding annotate
  has_prefix-annotate [] prefix = refl
  has_prefix-annotate (c ∷ contacts) prefix = ground (arith, has_prefix-annotate contacts prefix)

  -- The nodes that are not among the contacts, as they are listed.
  abbrev fresh : List ContactDto → List DiscoveredNode → List ContactDto
  fresh contacts discovered =
      map (discovered_contact repeaters telemetry)
        (filter (λ node. not (has_prefix contacts node.public_key_prefix_hex)) discovered)

  fresh-cons :
      (contacts : List ContactDto) (n : DiscoveredNode) (discovered : List DiscoveredNode)
      (prefix : Text) (b : Bool)
      → has_prefix contacts n.public_key_prefix_hex ≡ b
      → has_prefix (fresh contacts (n ∷ discovered)) prefix ≡ (
          (not b && text_eq n.public_key_prefix_hex prefix)
          || has_prefix (fresh contacts discovered) prefix)
  unfolding discovered_contact
  fresh-cons contacts n discovered prefix true e = rw (e) refl
  fresh-cons contacts n discovered prefix false e = rw (e) refl

  fresh_lists :
      (contacts : List ContactDto) (node : DiscoveredNode) (discovered : List DiscoveredNode)
      → Member node discovered
      → (has_prefix contacts node.public_key_prefix_hex
          || has_prefix (fresh contacts discovered) node.public_key_prefix_hex)
        ≡ true
  fresh_lists contacts node [] m = absurd m
  fresh_lists contacts node (n ∷ discovered) (inl e) = rw (e) (
      ground (
        arith,
        text_eq_refl n.public_key_prefix_hex,
        fresh-cons contacts n discovered n.public_key_prefix_hex _ refl,
      ))
  fresh_lists contacts node (n ∷ discovered) (inr m) = ground (
    arith,
    fresh_lists contacts node discovered m,
    fresh-cons contacts n discovered node.public_key_prefix_hex _ refl,
  )

  merge_lists :
      (contacts : List ContactDto) (node : DiscoveredNode) (discovered : List DiscoveredNode)
      → Member node discovered
      → has_prefix
          (merge_contacts repeaters telemetry contacts discovered)
          node.public_key_prefix_hex
        ≡ true
  unfolding merge_contacts
  merge_lists contacts node discovered m = ground (
    arith,
    fresh_lists contacts node discovered m,
    has_prefix-annotate contacts node.public_key_prefix_hex,
    any-append (λ c. text_eq c.public_key_prefix_hex node.public_key_prefix_hex)
        (map (annotate repeaters telemetry) contacts) (fresh contacts discovered),
  )

  merge_keeps :
      (contacts : List ContactDto) (discovered : List DiscoveredNode) (c : ContactDto)
      → Member c contacts
      → has_prefix (merge_contacts repeaters telemetry contacts discovered) c.public_key_prefix_hex
        ≡ true
  unfolding merge_contacts
  merge_keeps contacts discovered c m = ground (
    arith,
    has_prefix-own c contacts m,
    has_prefix-annotate contacts c.public_key_prefix_hex,
    any-append (λ d. text_eq d.public_key_prefix_hex c.public_key_prefix_hex)
        (map (annotate repeaters telemetry) contacts) (fresh contacts discovered),
  )

-- What a list of contacts shows: all are annotated, and it has the contacts and the nodes.
abbrev pub IsShown : AppState → List ContactDto → List ContactDto → Type 0
IsShown st contacts shown =
    All (IsAnnotated st.config.managed_repeaters st.telemetry) shown
    × AreKept shown contacts
    × AreListed shown (map (λ e. e.1) st.discovered_repeaters)

merged-IsShown :
    (st st' : AppState) (contacts : List ContactDto)
    → st' ≡ st
    → IsShown st contacts (
        merge_contacts st.config.managed_repeaters st'.telemetry contacts
          (map (λ e. e.1) st'.discovered_repeaters))
merged-IsShown st st' contacts e = rw (e) (
  merge-AreAnnotated st.config.managed_repeaters st.telemetry contacts _,
  All-members _ contacts (merge_keeps st.config.managed_repeaters st.telemetry contacts _),
  All-members _ _
      (λ node m. merge_lists st.config.managed_repeaters st.telemetry contacts node _ m),
)

-- The contacts that the node answers with, if it does.
abbrev pub answered : Outcome (List ContactDto) → List ContactDto
answered (ok contacts) = contacts
answered (err reason) = []

module _ {o : Outside} where
  cached-state :
      (r : Outcome (List ContactDto)) (s : Mesh o) → (contacts_or_cached r s).1.state ≡ s.state
  unfolding contacts_or_cached
  cached-state (ok contacts) s = refl
  cached-state (err reason) s = refl

  answered-IsShown :
      (st : AppState) (r : Outcome (List ContactDto)) (s : Mesh o) (shown : List ContactDto)
      → IsShown st (contacts_or_cached r s).0 shown
      → IsShown st (answered r) shown
  unfolding contacts_or_cached
  answered-IsShown st (ok contacts) s shown h = h
  answered-IsShown st (err reason) s shown h = (h.0, tt, h.2)

  -- After a refresh each contact that clients are shown has the status of the first configured
  -- repeater whose key begins with its prefix, is marked as managed exactly if this is managed or
  -- supervised, and has the last telemetry kept for its prefix; and the prefix of each contact that
  -- the node answers with, and of each overheard node, is in the list.
  pub refresh_snapshot_contacts-AreAnnotated :
      (s : Mesh o)
      → IsShown s.state
          (answered (o.fetch_contacts s.world).0)
          (refresh_snapshot_contacts s).1.state.snapshot.contacts
  unfolding refresh_snapshot_contacts build_snapshot_contacts
  refresh_snapshot_contacts-AreAnnotated s =
      let fetched = o.fetch_contacts s.world in
      let s' : Mesh o = record s { world = fetched.1 } in
      answered-IsShown s.state fetched.0 s' _ (
        merged-IsShown s.state (contacts_or_cached fetched.0 s').1.state
          (contacts_or_cached fetched.0 s').0 (cached-state fetched.0 s'))
