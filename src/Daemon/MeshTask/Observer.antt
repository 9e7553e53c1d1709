-- ===== src/Daemon/MeshTask/Observer.antt =====
-- What the task makes the node hold: the repeaters of the configuration, and, on an observer node,
-- no other contact and no channel.
pub mod Pruned
use fez_meshcore_controller.Prelude.{
  Bool, List, Option, Text, [], any, codes, decimal, false, if◌then◌else◌, is_empty, none, not,
  replicate, some, suc, text_eq, true, zero, ℕ, ◌++◌, ◌+◌, ◌||◌, ◌∷◌,
}
use fez_meshcore_controller.Core.Config.{ManagedRepeater, matches}
use fez_meshcore_controller.Core.Mesh.{ContactDto}
use fez_meshcore_controller.Core.Mesh.Contacts.{contacts_to_prune}
use fez_meshcore_controller.Core.Mesh.Detail.{Outcome, ok, err}
use fez_meshcore_controller.Core.Mesh.Events.{MeshEventKind}
use fez_meshcore_controller.Daemon.State.{AppState}
use fez_meshcore_controller.Daemon.MeshTask.Node.{
  Task, ◌>>=◌, ◌>>◌, pure, when, Channel, Outside, Mesh, call, call_as, read, notify, Call,
  remove_contact_call, get_channel_call, is_ok,
}
use fez_meshcore_controller.Daemon.MeshTask.Contacts.{refresh_snapshot_contacts}

abbrev pub enforced : Text → MeshEventKind
enforced detail = MeshEventKind.observer_node_config_enforced detail

abbrev pub no_secret : Text
no_secret = replicate 16 0

module _ {o : Outside} where
  -- The body of the loop, which says whether the repeater was declared.
  unfoldable pub declare_unknown : List ContactDto → ManagedRepeater → Task (Mesh o) Bool
  unfolding matches notify
  declare_unknown known repeater =
      if any (λ c. matches repeater c.public_key_prefix_hex) known then pure false else (do
        declared ← call (o.declare_contact repeater)
        when (is_ok declared) (notify (MeshEventKind.managed_repeater_declared repeater.name))
        pure (is_ok declared))

  unfoldable pub declare_all : List ContactDto → List ManagedRepeater → Task (Mesh o) Bool
  unfolding declare_unknown
  declare_all known [] = pure false
  declare_all known (repeater ∷ repeaters) = do
    declared ← declare_unknown known repeater
    declared_later ← declare_all known repeaters
    pure (declared || declared_later)

  unfoldable pub reconcile_managed_repeaters : Task (Mesh o) (Unit {0})
  unfolding declare_all refresh_snapshot_contacts
  reconcile_managed_repeaters = do
    managed_repeaters ← read (λ s. s.config.managed_repeaters)
    when (not (is_empty managed_repeaters)) (do
      known ← call o.contacts
      declared_any ← declare_all known managed_repeaters
      when declared_any refresh_snapshot_contacts)

  unfoldable pub disable_auto_add : Outcome Bool → Task (Mesh o) (Unit {0})
  unfolding notify
  disable_auto_add (ok true) = do
    disabled ← call o.disable_auto_add_contacts
    when (is_ok disabled) (notify (enforced (codes "disabled contact auto-add")))
  disable_auto_add (ok false) = pure tt
  disable_auto_add (err reason) = pure tt

  unfoldable pub remove_used_channel : ℕ → Outcome Channel → Task (Mesh o) (Unit {0})
  unfolding notify text_eq decimal
  remove_used_channel idx (ok channel) =
      when (not (is_empty channel.name) || not (text_eq channel.secret no_secret)) (do
        removed ← call (o.remove_channel idx)
        when (is_ok removed) (notify (enforced (codes "removed channel " ++ decimal idx))))
  remove_used_channel idx (err reason) = pure tt

  -- `count` channels from `idx` on.
  unfoldable pub wipe_channels : ℕ → ℕ → Task (Mesh o) (Unit {0})
  unfolding remove_used_channel
  wipe_channels zero idx = pure tt
  wipe_channels (suc count) idx = do
    channel ← call_as (λ c. get_channel_call idx) (o.get_channel idx)
    remove_used_channel idx channel
    wipe_channels count (idx + 1)

  unfoldable pub wipe_all_channels : Option ℕ → Task (Mesh o) (Unit {0})
  unfolding wipe_channels
  wipe_all_channels none = pure tt
  wipe_all_channels (some max_channels) = wipe_channels max_channels 0

  unfoldable pub prune_contact : ContactDto → Task (Mesh o) Bool
  unfolding notify
  prune_contact contact = do
    removed ←
        call_as (λ r. remove_contact_call contact.public_key_prefix_hex)
          (o.remove_contact contact.public_key_prefix_hex)
    when (is_ok removed) (notify (enforced (codes "pruned non-managed contact " ++ contact.name)))
    pure (is_ok removed)

  unfoldable pub prune_all : List ContactDto → Task (Mesh o) Bool
  unfolding prune_contact
  prune_all [] = pure false
  prune_all (contact ∷ contacts) = do
    pruned ← prune_contact contact
    pruned_later ← prune_all contacts
    pure (pruned || pruned_later)

  -- The corrections, one after the other.
  unfoldable pub enforce_all : Task (Mesh o) (Unit {0})
  unfolding disable_auto_add wipe_all_channels contacts_to_prune prune_all refresh_snapshot_contacts
  enforce_all = do
    autoadd ← call o.autoadd_enabled
    disable_auto_add autoadd
    max_channels ← call o.max_channels
    wipe_all_channels max_channels
    managed_repeaters ← read (λ s. s.config.managed_repeaters)
    known ← call o.contacts
    pruned_any ← prune_all (contacts_to_prune known managed_repeaters)
    when pruned_any refresh_snapshot_contacts

  unfoldable pub enforce_observer_node_config : Task (Mesh o) (Unit {0})
  unfolding enforce_all
  enforce_observer_node_config = do
    enabled ← read (λ s. s.config.daemon.observer_node_managed_config)
    when enabled enforce_all
