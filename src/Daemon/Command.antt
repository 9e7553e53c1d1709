-- ===== src/Daemon/Command.antt =====
-- daemon/src/command.rs: the commands of the mesh task, without their reply channels.
use fez_meshcore_controller.Prelude.{Bool, Option, Text}
use fez_meshcore_controller.Core.Hex.{Bytes}
use fez_meshcore_controller.Core.Config.{RepeaterStatus}

pub data DaemonCommand : Type 0 where
  -- public_key_prefix_hex
  remove_contact : Text → DaemonCommand
  -- public_key_prefix_hex, name, status
  set_repeater_status : Text → Text → Option RepeaterStatus → DaemonCommand
  -- public_key_hex, name, managed
  add_repeater : Text → Text → Bool → DaemonCommand
  -- public_key_prefix_hex
  request_telemetry request_repeater_detail : Text → DaemonCommand
  refresh_node_stats : DaemonCommand
  sign_data : Bytes → DaemonCommand
  resync_observer_config : DaemonCommand
