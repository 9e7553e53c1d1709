-- ===== src/Daemon/MeshTask/Contacts.antt =====
-- The contact list that clients are shown, and the nodes that are overheard.
pub mod Annotated
use fez_meshcore_controller.Prelude.{
  Bool, List, Option, any, false, filter, map, none, not, some, text_eq, true, ◌%◌, ◌++◌, ◌^◌,
}
use fez_meshcore_controller.Prelude.Int.{ℤ, pos_part}
use fez_meshcore_controller.Prelude.Map.{HashMap, lookup}
use fez_meshcore_controller.Core.Config.{
  RepeaterStatus, managed, known, supervised, ManagedRepeater,
}
use fez_meshcore_controller.Core.Mesh.{ContactDto, DiscoveredNode, TelemetryDto}
use fez_meshcore_controller.Core.Mesh.Contacts.{matching_repeater_status}
use fez_meshcore_controller.Core.Mesh.Detail.{Outcome, ok, err}
use fez_meshcore_controller.Core.Mesh.Events.{MeshEventKind}
use fez_meshcore_controller.Daemon.State.{AppState, upsert_discovered_node}
use fez_meshcore_controller.Daemon.MeshTask.Node.{
  Task, ◌>>=◌, ◌>>◌, pure, when, Outside, Mesh, call, read, write, now, notify,
}

abbrev pub is_managed_status : Option RepeaterStatus → Bool
is_managed_status (some managed) = true
is_managed_status (some supervised) = true
is_managed_status (some known) = false
is_managed_status none = false

unfoldable pub annotate : List ManagedRepeater → HashMap TelemetryDto → ContactDto → ContactDto
unfolding matching_repeater_status lookup
annotate managed_repeaters telemetry contact =
    let status = matching_repeater_status managed_repeaters contact.public_key_prefix_hex in
    record contact {
      repeater_status = status;
      managed = is_managed_status status;
      last_telemetry = lookup contact.public_key_prefix_hex telemetry;
    }

-- `as u32` of a time that is not negative.
unfoldable pub discovered_contact :
    List ManagedRepeater → HashMap TelemetryDto → DiscoveredNode → ContactDto
unfolding matching_repeater_status lookup
discovered_contact managed_repeaters telemetry node =
    let status = matching_repeater_status managed_repeaters node.public_key_prefix_hex in
    record {
      name = node.name;
      public_key_prefix_hex = node.public_key_prefix_hex;
      last_advert_unix = pos_part node.last_seen_unix % 2 ^ 32;
      lat = node.lat;
      lon = node.lon;
      registered = false;
      managed = is_managed_status status;
      repeater_status = status;
      contact_type = node.adv_type;
      last_telemetry = lookup node.public_key_prefix_hex telemetry;
    }

-- The contacts of the node, then the discovered nodes that are not among them.
unfoldable pub merge_contacts :
    List ManagedRepeater
    → HashMap TelemetryDto
    → List ContactDto
    → List DiscoveredNode
    → List ContactDto
unfolding annotate discovered_contact
merge_contacts managed_repeaters telemetry contacts discovered =
    map (annotate managed_repeaters telemetry) contacts
    ++ map (discovered_contact managed_repeaters telemetry) (
        filter
          (λ node.
            not (any (λ c. text_eq c.public_key_prefix_hex node.public_key_prefix_hex) contacts))
          discovered)

module _ {o : Outside} where
  -- The cache of the client when the node does not answer.
  unfoldable pub contacts_or_cached : Outcome (List ContactDto) → Task (Mesh o) (List ContactDto)
  contacts_or_cached (ok contacts) = pure contacts
  contacts_or_cached (err reason) = call o.contacts

  unfoldable pub build_snapshot_contacts : Task (Mesh o) (List ContactDto)
  unfolding contacts_or_cached merge_contacts
  build_snapshot_contacts = do
    managed_repeaters ← read (λ s. s.config.managed_repeaters)
    fetched ← call o.fetch_contacts
    contacts ← contacts_or_cached fetched
    telemetry ← read (λ s. s.telemetry)
    discovered ← read (λ s. map (λ e. e.1) s.discovered_repeaters)
    pure (merge_contacts managed_repeaters telemetry contacts discovered)

  unfoldable pub refresh_snapshot_contacts : Task (Mesh o) (Unit {0})
  unfolding build_snapshot_contacts
  refresh_snapshot_contacts = do
    contacts ← build_snapshot_contacts
    at ← now
    write (λ s. record s {
      snapshot = record s.snapshot { contacts = contacts; generated_at_unix = at };
    })

  -- What is done with a node that was not known before.
  unfoldable pub surface_node : DiscoveredNode → Task (Mesh o) (Unit {0})
  unfolding refresh_snapshot_contacts notify text_eq
  surface_node node = do
    contacts ← call o.contacts
    when (not (any (λ c. text_eq c.public_key_prefix_hex node.public_key_prefix_hex) contacts)) (
        refresh_snapshot_contacts
        >> notify (MeshEventKind.repeater_heard node.name node.public_key_prefix_hex))

  unfoldable pub handle_discovered_node : DiscoveredNode → Task (Mesh o) (Unit {0})
  unfolding upsert_discovered_node surface_node
  handle_discovered_node node = do
    persisted ← call (o.persist node)
    is_new ← read (λ s. (upsert_discovered_node s node persisted).1)
    write (λ s. (upsert_discovered_node s node persisted).0)
    when is_new (surface_node node)
