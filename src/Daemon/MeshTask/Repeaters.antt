-- ===== src/Daemon/MeshTask/Repeaters.antt =====
-- The commands that add repeaters and change their status.
pub mod Config
use fez_meshcore_controller.Prelude.{
  Bool, List, Option, Text, [], all, any, codes, decimal, eq_ignore_ascii_case, false,
  if◌then◌else◌, leb, length, modify, none, position, remove_at, some, take, text_eq, true,
  unwrap_or, ℕ, ◌&&◌, ◌++◌, ◌==◌, ◌||◌, ◌∷◌,
}
use fez_meshcore_controller.Prelude.Map.{lookup}
use fez_meshcore_controller.Core.Config.{RepeaterStatus, managed, ManagedRepeater, matches}
use fez_meshcore_controller.Core.Mesh.{ContactDto, DiscoveredNode}
use fez_meshcore_controller.Core.Mesh.Detail.{Outcome, ok, err}
use fez_meshcore_controller.Core.Mesh.Events.{MeshEventKind}
use fez_meshcore_controller.Daemon.State.{AppState}
use fez_meshcore_controller.Daemon.MeshTask.Node.{
  Task, ◌>>=◌, ◌>>◌, pure, when, and_then, map_err, Outside, Mesh, call, read, write, notify,
}
use fez_meshcore_controller.Daemon.MeshTask.Contacts.{refresh_snapshot_contacts}

abbrev pub new_repeater : Text → Text → RepeaterStatus → ManagedRepeater
new_repeater name public_key_hex status = record {
  name = name;
  public_key_hex = public_key_hex;
  password = none;
  status = status;
}

abbrev pub update_repeater : Text → RepeaterStatus → Option Text → ManagedRepeater → ManagedRepeater
update_repeater name status resolved r = record r {
  name = name;
  status = status;
  public_key_hex = unwrap_or resolved r.public_key_hex;
}

-- The match on the status and the index of the entry.
unfoldable pub upsert_at :
    Text
    → Text
    → Option RepeaterStatus
    → Option Text
    → Option ℕ
    → List ManagedRepeater
    → List ManagedRepeater
upsert_at prefix name (some status) resolved (some index) repeaters =
    modify repeaters index (update_repeater name status resolved)
upsert_at prefix name (some status) resolved none repeaters =
    repeaters ++ new_repeater name (unwrap_or resolved prefix) status ∷ []
upsert_at prefix name none resolved (some index) repeaters = remove_at repeaters index
upsert_at prefix name none resolved none repeaters = repeaters

unfoldable pub upsert_repeaters :
    Text → Text → Option RepeaterStatus → Option Text → List ManagedRepeater → List ManagedRepeater
unfolding upsert_at matches
upsert_repeaters prefix name status resolved repeaters =
    upsert_at prefix name status resolved (position (λ r. matches r prefix) repeaters) repeaters

abbrev pub quoted : Text → Text
quoted name = codes "\"" ++ (name ++ codes "\"")

abbrev pub all_hex_digits : Text → Bool
all_hex_digits =
    all
      (λ c. (leb b'0' c && leb c b'9') || (leb b'a' c && leb c b'f') || (leb b'A' c && leb c b'F'))

-- U+2014.
abbrev pub em_dash : Text
em_dash = 226 ∷ 128 ∷ 148 ∷ []

abbrev pub is_full_key : Text → Bool
is_full_key key = length key == 64 && all_hex_digits key

module _ {o : Outside} where
  unfoldable pub upsert_managed_repeater_config :
      Text → Text → Option RepeaterStatus → Option Text → Task (Mesh o) (Outcome (Unit {0}))
  unfolding upsert_repeaters
  upsert_managed_repeater_config prefix name status resolved = do
    write (λ s. record s {
      config = record s.config {
        managed_repeaters = upsert_repeaters prefix name status resolved s.config.managed_repeaters;
      };
    })
    config ← read (λ s. s.config)
    saved ← call (o.save_to config)
    pure (map_err (λ reason. codes "failed to save config: " ++ reason) saved)

  -- The node is told of the repeater.
  unfoldable pub register : Text → ManagedRepeater → Task (Mesh o) (Outcome (Unit {0}))
  unfolding notify
  register name repeater = do
    declared ← call (o.declare_contact repeater)
    and_then
        (map_err (λ reason. codes "failed to register " ++ (quoted name ++ (codes ": " ++ reason)))
          declared)
        (λ u. do notify (MeshEventKind.managed_repeater_declared name); pure (ok tt))

  -- The key that the repeater was registered by, if it had to be.
  unfoldable pub register_discovered :
      Text → RepeaterStatus → Option DiscoveredNode → Task (Mesh o) (Outcome (Option Text))
  unfolding register
  register_discovered name status none = pure (
      err (
        quoted name
        ++ (codes " hasn't been heard yet on the mesh, so its full public key isn't known "
            ++ (em_dash ++ codes " cannot register it"))))
  register_discovered name status (some node) = do
    registered ← register name (new_repeater name node.public_key_hex status)
    and_then registered (λ u. pure (ok (some node.public_key_hex)))

  unfoldable pub resolve_key :
      Text → Text → Option RepeaterStatus → Task (Mesh o) (Outcome (Option Text))
  unfolding register_discovered text_eq lookup
  resolve_key prefix name none = pure (ok none)
  resolve_key prefix name (some status) = do
    contacts ← call o.contacts
    discovered ← read (λ s. lookup prefix s.discovered_repeaters)
    if any (λ c. text_eq c.public_key_prefix_hex prefix) contacts
        then pure (ok none)
        else register_discovered name status discovered

  unfoldable pub set_repeater_status :
      Text → Text → Option RepeaterStatus → Task (Mesh o) (Outcome (Unit {0}))
  unfolding resolve_key upsert_managed_repeater_config notify refresh_snapshot_contacts
  set_repeater_status prefix name status = do
    resolved ← resolve_key prefix name status
    and_then resolved (λ key. do
      saved ← upsert_managed_repeater_config prefix name status key
      and_then saved (λ u. do
        notify (MeshEventKind.repeater_status_changed name status)
        refresh_snapshot_contacts
        pure (ok tt)))

  unfoldable pub register_unless : Bool → Text → Text → Task (Mesh o) (Outcome (Unit {0}))
  unfolding register
  register_unless true name key = pure (ok tt)
  register_unless false name key = register name (new_repeater name key managed)

  unfoldable pub manage_if : Bool → Text → Text → Task (Mesh o) (Outcome (Unit {0}))
  unfolding upsert_managed_repeater_config
  manage_if true key name =
      upsert_managed_repeater_config (take 12 key) name (some managed) (some key)
  manage_if false key name = pure (ok tt)

  unfoldable pub add_checked : Text → Text → Bool → Task (Mesh o) (Outcome (Unit {0}))
  unfolding register_unless manage_if refresh_snapshot_contacts eq_ignore_ascii_case
  add_checked key name is_managed = do
    contacts ← call o.contacts
    registered ←
        register_unless
          (any (λ c. eq_ignore_ascii_case c.public_key_prefix_hex (take 12 key)) contacts) name key
    and_then registered (λ u. do
      saved ← manage_if is_managed key name
      and_then saved (λ u'. do refresh_snapshot_contacts; pure (ok tt)))

  -- `len` counts bytes.
  unfoldable pub add_repeater : Text → Text → Bool → Task (Mesh o) (Outcome (Unit {0}))
  unfolding add_checked decimal
  add_repeater key name is_managed =
      if is_full_key key
      then add_checked key name is_managed
      else pure (
          err (
            quoted name
            ++ (codes " needs a full 32-byte public key (64 hex characters), got "
                ++ (decimal (length key) ++ codes " characters"))))
