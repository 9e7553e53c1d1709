-- ===== src/Daemon/MeshTask/Observer/Pruned.antt =====
-- Which contacts and channels an observer node is made to drop.
use fez_meshcore_controller.Prelude.{
  Bool, List, Option, [], ap, codes, decimal, false, inl, inr, map, none, refl, reverse, some, suc,
  true, unwrap_or, zero, ℕ, ◌++◌, ◌+◌, ◌∙◌, ◌∷◌, ◌≡◌, ◌⊎◌,
}
use fez_meshcore_controller.Core.Mesh.{ContactDto}
use mathlib.Core.List.{reverse_aux, reverse_aux-eq}
use fez_meshcore_controller.Core.Mesh.Contacts.{contacts_to_prune}
use fez_meshcore_controller.Core.Mesh.Contacts.Pruning.{IsPruning, contacts_to_prune-IsPruning}
use fez_meshcore_controller.Core.Mesh.Detail.{Outcome, ok, err}
use fez_meshcore_controller.Core.Mesh.Events.{MeshEventKind}
use fez_meshcore_controller.Daemon.MeshTask.Node.{
  Outside, Mesh, Channel, Call, when, notify, is_ok, remove_contact_call, get_channel_call,
}
use fez_meshcore_controller.Daemon.MeshTask.Contacts.{refresh_snapshot_contacts}
use fez_meshcore_controller.Daemon.MeshTask.Detail.Categories.{refresh-Keeps}
use fez_meshcore_controller.Daemon.MeshTask.Observer.{
  enforced, disable_auto_add, remove_used_channel, wipe_channels, wipe_all_channels, prune_contact,
  prune_all, enforce_all, enforce_observer_node_config,
}

-- The calls that query `count` channels from `idx` on, the latest in front.
abbrev channel_calls : ℕ → ℕ → List Call → List Call
channel_calls zero idx calls = calls
channel_calls (suc count) idx calls = channel_calls count (idx + 1) (get_channel_call idx ∷ calls)

-- The calls that remove the contacts, the latest in front.
abbrev prune_calls : List ContactDto → List Call → List Call
prune_calls [] calls = calls
prune_calls (c ∷ cs) calls = prune_calls cs (remove_contact_call c.public_key_prefix_hex ∷ calls)

-- The numbers from `first` on.
abbrev pub range : ℕ → ℕ → List ℕ
range first zero = []
range first (suc count) = first ∷ range (first + 1) count

-- The calls that query a number of channels, and those that remove contacts, in order.
abbrev pub queries : ℕ → List Call
queries count = map get_channel_call (range 0 count)

abbrev pub removals : List ContactDto → List Call
removals = map (λ c. remove_contact_call c.public_key_prefix_hex)

channel_calls-queries :
    (count idx : ℕ) (calls : List Call)
    → channel_calls count idx calls ≡ reverse_aux (map get_channel_call (range idx count)) calls
channel_calls-queries zero idx calls = refl
channel_calls-queries (suc count) idx calls =
    channel_calls-queries count (idx + 1) (get_channel_call idx ∷ calls)

prune_calls-removals :
    (cs : List ContactDto) (calls : List Call)
    → prune_calls cs calls ≡ reverse_aux (removals cs) calls
prune_calls-removals [] calls = refl
prune_calls-removals (c ∷ cs) calls =
    prune_calls-removals cs (remove_contact_call c.public_key_prefix_hex ∷ calls)

-- The latest call is in front.
made_in_order :
    (count : ℕ) (cs : List ContactDto) (calls : List Call)
    → prune_calls cs (channel_calls count 0 calls)
      ≡ reverse (removals cs) ++ (reverse (queries count) ++ calls)
made_in_order count cs calls =
    prune_calls-removals cs (channel_calls count 0 calls)
    ∙ reverse_aux-eq (removals cs) (channel_calls count 0 calls)
    ∙ ap (λ l. reverse (removals cs) ++ l)
        (channel_calls-queries count 0 calls ∙ reverse_aux-eq (queries count) calls)

module _ {o : Outside} where
  abbrev Keeps : Mesh o → Mesh o → Type 0
  Keeps s s' = (s'.calls ≡ s.calls) × (s'.state.config ≡ s.state.config)

  notify-Keeps : (b : Bool) (kind : MeshEventKind) (s : Mesh o) → Keeps s (when b (notify kind) s).1
  unfolding notify
  notify-Keeps true kind s = (refl, refl)
  notify-Keeps false kind s = (refl, refl)

  disable-Keeps : (r : Outcome Bool) (s : Mesh o) → Keeps s (disable_auto_add r s).1
  unfolding disable_auto_add
  disable-Keeps (ok true) s = notify-Keeps _ _ _
  disable-Keeps (ok false) s = (refl, refl)
  disable-Keeps (err reason) s = (refl, refl)

  -- The channel is removed when it is in use.
  used-Keeps :
      (used : Bool) (idx : ℕ) (s : Mesh o)
      → Keeps s
          (when used
            (λ s'.
              when
                (is_ok (o.remove_channel idx s'.world).0)
                (notify (enforced (codes "removed channel " ++ decimal idx)))
                (record s' { world = (o.remove_channel idx s'.world).1 }))
            s).1
  used-Keeps true idx s = notify-Keeps _ _ _
  used-Keeps false idx s = (refl, refl)

  channel-Keeps :
      (idx : ℕ) (r : Outcome Channel) (s : Mesh o) → Keeps s (remove_used_channel idx r s).1
  unfolding remove_used_channel
  channel-Keeps idx (ok channel) s = used-Keeps _ idx s
  channel-Keeps idx (err reason) s = (refl, refl)

  wipe-calls :
      (count idx : ℕ) (s : Mesh o)
      → ((wipe_channels count idx s).1.calls ≡ channel_calls count idx s.calls)
        × ((wipe_channels count idx s).1.state.config ≡ s.state.config)
  unfolding wipe_channels
  wipe-calls zero idx s = (refl, refl)
  wipe-calls (suc count) idx s =
      let asked = o.get_channel idx s.world in
      let s₁ : Mesh o = record s { world = asked.1; calls = get_channel_call idx ∷ s.calls } in
      let kept = channel-Keeps idx asked.0 s₁ in
      let rest = wipe-calls count (idx + 1) (remove_used_channel idx asked.0 s₁).1 in
      (rest.0 ∙ ap (channel_calls count (idx + 1)) kept.0, rest.1 ∙ kept.1)

  wipe_all-calls :
      (limit : Option ℕ) (s : Mesh o)
      → ((wipe_all_channels limit s).1.calls ≡ channel_calls (unwrap_or limit 0) 0 s.calls)
        × ((wipe_all_channels limit s).1.state.config ≡ s.state.config)
  unfolding wipe_all_channels
  wipe_all-calls none s = (refl, refl)
  wipe_all-calls (some n) s = wipe-calls n 0 s

  prune-calls :
      (cs : List ContactDto) (s : Mesh o) → (prune_all cs s).1.calls ≡ prune_calls cs s.calls
  unfolding prune_all prune_contact
  prune-calls [] s = refl
  prune-calls (c ∷ cs) s =
      prune-calls cs (prune_contact c s).1 ∙ ap (prune_calls cs) (notify-Keeps _ _ _).0

  refresh-calls : (b : Bool) (s : Mesh o) → (when b refresh_snapshot_contacts s).1.calls ≡ s.calls
  refresh-calls true s = (refresh-Keeps s).1
  refresh-calls false s = refl

  -- The states after the contacts' auto-add, and after the channels.
  abbrev pub after_auto_add : Mesh o → Mesh o
  after_auto_add s =
      let auto = o.autoadd_enabled s.world in
      (disable_auto_add auto.0 (record s { world = auto.1 })).1

  abbrev pub limit_of : Mesh o → Option ℕ × o.World
  limit_of s = o.max_channels (after_auto_add s).world

  abbrev pub after_channels : Mesh o → Mesh o
  after_channels s =
      (wipe_all_channels (limit_of s).0 (record (after_auto_add s) { world = (limit_of s).1 })).1

  -- Each channel is queried once, and then each contact that the node has, and that no configured
  -- repeater owns, removed once.
  abbrev pub Enforces : Mesh o → Mesh o → Type 0
  Enforces s s' =
      (pruned : List ContactDto) × IsPruning s.state.config.managed_repeaters
        (o.contacts (after_channels s).world).0 pruned
      × (s'.calls
          ≡ reverse (removals pruned)
            ++ (reverse (queries (unwrap_or (limit_of s).0 0)) ++ s.calls))

  enforce_all-Enforces : (s : Mesh o) → Enforces s (enforce_all s).1
  unfolding enforce_all
  enforce_all-Enforces s =
      let auto = o.autoadd_enabled s.world in
      let quiet = disable-Keeps auto.0 (record s { world = auto.1 }) in
      let limit = limit_of s in
      let wiped = wipe_all-calls limit.0 (record (after_auto_add s) { world = limit.1 }) in
      let s₂ = after_channels s in
      let known = o.contacts s₂.world in
      let repeaters = s.state.config.managed_repeaters in
      let unmanaged = contacts_to_prune known.0 s₂.state.config.managed_repeaters in
      let s₃ : Mesh o = record s₂ { world = known.1 } in
      (
        contacts_to_prune known.0 repeaters,
        contacts_to_prune-IsPruning known.0 repeaters,
        refresh-calls (prune_all unmanaged s₃).0 (prune_all unmanaged s₃).1
            ∙ prune-calls unmanaged s₃
            ∙ ap (λ c. prune_calls (contacts_to_prune known.0 c.managed_repeaters) s₂.calls)
                (wiped.1 ∙ quiet.1)
            ∙ ap (prune_calls (contacts_to_prune known.0 repeaters))
                (wiped.0 ∙ ap (channel_calls (unwrap_or limit.0 0) 0) quiet.0)
            ∙ made_in_order (unwrap_or limit.0 0) (contacts_to_prune known.0 repeaters) s.calls,
      )

  enforce_if-Enforces :
      (enabled : Bool) (s : Mesh o)
      → ((enabled ≡ false) × ((when enabled enforce_all s).1 ≡ s))
        ⊎ ((enabled ≡ true) × Enforces s (when enabled enforce_all s).1)
  enforce_if-Enforces true s = inr (refl, enforce_all-Enforces s)
  enforce_if-Enforces false s = inl (refl, refl)

  -- When the node is not managed as an observer, nothing happens. When it is, the task queries each
  -- of the channels that the node says it has once, in ascending order, and then asks the node to
  -- remove, in their order, each of the contacts that it has by then whose prefix begins the key of
  -- no repeater of the configuration, and no other. A call that fails does not stop the rest.
  pub enforce_observer_node_config-Enforces :
      (s : Mesh o)
      → ((s.state.config.daemon.observer_node_managed_config ≡ false)
          × ((enforce_observer_node_config s).1 ≡ s))
        ⊎ ((s.state.config.daemon.observer_node_managed_config ≡ true)
            × Enforces s (enforce_observer_node_config s).1)
  unfolding enforce_observer_node_config
  enforce_observer_node_config-Enforces s = enforce_if-Enforces _ s
