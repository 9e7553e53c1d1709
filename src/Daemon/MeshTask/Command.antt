-- ===== src/Daemon/MeshTask/Command.antt =====
-- The dispatch of a client's command. What a command's reply channel gets is its result.
use fez_meshcore_controller.Prelude.{Text}
use fez_meshcore_controller.Core.Hex.{Bytes}
use fez_meshcore_controller.Core.Mesh.{NodeStatsDto, TelemetryDto}
use fez_meshcore_controller.Core.Mesh.Detail.{Outcome, ok}
use fez_meshcore_controller.Core.Mesh.Events.{MeshEventKind}
use fez_meshcore_controller.Daemon.Command.{
  DaemonCommand, remove_contact, set_repeater_status, add_repeater, request_telemetry,
  request_repeater_detail, refresh_node_stats, sign_data, resync_observer_config,
}
use fez_meshcore_controller.Daemon.State.{set_node_stats}
use fez_meshcore_controller.Daemon.MeshTask.Node.{
  Task, ◌>>=◌, ◌>>◌, pure, and_then, Outside, Mesh, call, call_as, read, write, notify,
  remove_contact_call,
}
use fez_meshcore_controller.Daemon.MeshTask.Contacts.{refresh_snapshot_contacts}
use fez_meshcore_controller.Daemon.MeshTask.Observer.{enforce_observer_node_config}
use fez_meshcore_controller.Daemon.MeshTask.Repeaters
use fez_meshcore_controller.Daemon.MeshTask.Detail
use fez_meshcore_controller.Daemon.MeshTask.Detail.{contact_name}

pub data Reply : Type 0 where
  done : Outcome (Unit {0}) → Reply
  telemetry_reply : Outcome TelemetryDto → Reply
  node_stats_reply : NodeStatsDto → Reply
  signature : Outcome Bytes → Reply
  -- A command that has no reply channel.
  no_reply : Reply

module _ {o : Outside} where
  -- The name is looked up before the contact leaves the list.
  unfoldable pub finalize_contact_removal : Text → Task (Mesh o) (Outcome (Unit {0}))
  unfolding contact_name refresh_snapshot_contacts notify
  finalize_contact_removal prefix = do
    removed_name ← read (λ s. contact_name s.snapshot.contacts prefix)
    refresh_snapshot_contacts
    notify (MeshEventKind.contact_removed removed_name prefix)
    pure (ok tt)

  unfoldable pub handle_command : DaemonCommand → Task (Mesh o) Reply
  unfolding finalize_contact_removal Repeaters.set_repeater_status Repeaters.add_repeater
      Detail.request_telemetry Detail.request_repeater_detail set_node_stats
      enforce_observer_node_config
  handle_command (remove_contact prefix) = do
    outcome ← call_as (λ r. remove_contact_call prefix) (o.remove_contact prefix)
    result ← and_then outcome (λ u. finalize_contact_removal prefix)
    pure (done result)
  handle_command (set_repeater_status prefix name status) = do
    result ← Repeaters.set_repeater_status prefix name status
    pure (done result)
  handle_command (add_repeater key name is_managed) = do
    result ← Repeaters.add_repeater key name is_managed
    pure (done result)
  handle_command (request_telemetry prefix) = do
    result ← Detail.request_telemetry prefix
    pure (telemetry_reply result)
  handle_command (request_repeater_detail prefix) = do
    Detail.request_repeater_detail prefix
    pure no_reply
  handle_command refresh_node_stats = do
    stats ← call o.node_stats
    write (λ s. set_node_stats s stats)
    pure (node_stats_reply stats)
  handle_command (sign_data data') = do result ← call (o.sign data'); pure (signature result)
  handle_command resync_observer_config = do enforce_observer_node_config; pure no_reply
