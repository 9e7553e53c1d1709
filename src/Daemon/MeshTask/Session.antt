-- ===== src/Daemon/MeshTask/Session.antt =====
-- A connection to the node: what is done at its start, in each round of its loop, and at its end.
use fez_meshcore_controller.Prelude.{
  Bool, List, Option, [], false, if◌then◌else◌, none, not, some, true, ◌∷◌,
}
use fez_meshcore_controller.Core.Mesh.{is_repeater_or_room, DiscoveredNode, PacketLogEntry}
use fez_meshcore_controller.Core.Mesh.Packet.{extract_discovered_node, build_packet_log_entry}
use fez_meshcore_controller.Core.Mesh.Source.{Names, MeshCoreEvent}
use fez_meshcore_controller.Core.Mesh.Events.{MeshEventKind, map_event}
use fez_meshcore_controller.Daemon.Command.{DaemonCommand}
use fez_meshcore_controller.Daemon.State.{
  broadcast_raw_event, next_packet_id, record_packet, set_device_info, set_node_stats,
}
use fez_meshcore_controller.Daemon.MeshTask.Node.{
  Task, ◌>>=◌, ◌>>◌, pure, when, Outside, Mesh, call, read, write, now, notify,
}
use fez_meshcore_controller.Daemon.MeshTask.Contacts.{
  refresh_snapshot_contacts, handle_discovered_node,
}
use fez_meshcore_controller.Daemon.MeshTask.Observer.{
  reconcile_managed_repeaters, enforce_observer_node_config,
}
use fez_meshcore_controller.Daemon.MeshTask.Command.{handle_command}

-- What `select!` gets: an event of the stream or its end, the refresh timer, or a command.
pub data Ready : Type 0 where
  event : MeshCoreEvent → Ready
  end_of_events tick : Ready
  command : DaemonCommand → Ready

-- Whether the loop goes on, and if it ended whether the clients know of the disconnection.
pub data Flow : Type 0 where
  goes_on : Flow
  ended : Bool → Flow

abbrev pub refreshes_contacts : MeshEventKind → Bool
refreshes_contacts (MeshEventKind.new_contact name) = true
refreshes_contacts (MeshEventKind.advertisement name prefix lat lon) = true
refreshes_contacts kind = false

abbrev pub is_disconnected : MeshEventKind → Bool
is_disconnected MeshEventKind.disconnected = true
is_disconnected kind = false

module _ {o : Outside} where
  unfoldable pub surface : Option DiscoveredNode → Task (Mesh o) (Unit {0})
  unfolding is_repeater_or_room handle_discovered_node
  surface none = pure tt
  surface (some node) = when (is_repeater_or_room node.adv_type) (handle_discovered_node node)

  unfoldable pub record_entry : Option PacketLogEntry → Task (Mesh o) (Unit {0})
  unfolding record_packet
  record_entry none = pure tt
  record_entry (some entry) = write (λ s. record_packet s entry)

  unfoldable pub announce : Option MeshEventKind → Task (Mesh o) Flow
  unfolding refresh_snapshot_contacts notify
  announce none = pure goes_on
  announce (some kind) = do
    when (refreshes_contacts kind) refresh_snapshot_contacts
    notify kind
    pure (if is_disconnected kind then ended true else goes_on)

  module _ (names : Names) where
    unfoldable pub handle_raw_event : MeshCoreEvent → Task (Mesh o) Flow
    unfolding extract_discovered_node surface next_packet_id build_packet_log_entry record_entry
        broadcast_raw_event map_event announce
    handle_raw_event raw = do
      heard_at ← now
      surface (extract_discovered_node raw heard_at)
      id ← read (λ s. (next_packet_id s).0)
      write (λ s. (next_packet_id s).1)
      at ← now
      record_entry (build_packet_log_entry names raw id at)
      write (λ s. broadcast_raw_event s raw)
      announce (map_event names raw)

    unfoldable pub handle_tick : Task (Mesh o) (Unit {0})
    handle_tick = do
      info ← call o.self_info
      at ← now
      uptime ← (λ s. (o.uptime_secs s.world, s))
      write (λ s. record s {
        snapshot = record s.snapshot {
          self_info = info;
          uptime_secs = uptime;
          generated_at_unix = at;
        };
      })

    unfoldable pub round : Ready → Task (Mesh o) Flow
    unfolding handle_raw_event handle_tick handle_command
    round (event raw) = handle_raw_event raw
    round end_of_events = pure (ended false)
    round tick = do handle_tick; pure goes_on
    round (command cmd) = do reply ← handle_command cmd; pure goes_on

    -- The loop, on what its rounds get.
    unfoldable pub loop_after : Flow → Task (Mesh o) Flow → Task (Mesh o) Flow
    loop_after goes_on rest = rest
    loop_after (ended notified) rest = pure (ended notified)

    unfoldable pub event_loop : List Ready → Task (Mesh o) Flow
    unfolding round loop_after
    event_loop [] = pure goes_on
    event_loop (ready ∷ later) = do flow ← round ready; loop_after flow (event_loop later)

  unfoldable pub connected : Task (Mesh o) (Unit {0})
  unfolding set_device_info set_node_stats refresh_snapshot_contacts notify
      reconcile_managed_repeaters enforce_observer_node_config
  connected = do
    info ← call o.self_info
    at ← now
    write (λ s. record s {
      snapshot = record s.snapshot {
        mesh_connected = true;
        self_info = info;
        generated_at_unix = at;
      };
    })
    device ← call o.device_info
    write (λ s. set_device_info s device)
    stats ← call o.node_stats
    write (λ s. set_node_stats s stats)
    refresh_snapshot_contacts
    notify MeshEventKind.connected
    reconcile_managed_repeaters
    enforce_observer_node_config

  -- What follows the loop.
  unfoldable pub finish : Flow → Task (Mesh o) (Unit {0})
  unfolding notify
  finish goes_on = pure tt
  finish (ended notified) = do
    r ← call o.disconnect
    when (not notified) (notify MeshEventKind.disconnected)
    at ← now
    write (λ s. record s {
      snapshot = record s.snapshot { mesh_connected = false; generated_at_unix = at };
    })

  unfoldable pub session : Names → List Ready → Task (Mesh o) Flow
  unfolding connected event_loop finish
  session names readies = do connected; flow ← event_loop names readies; finish flow; pure flow
