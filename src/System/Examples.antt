-- ===== src/System/Examples.antt =====
-- The theorem on the daemon and a client at a concrete request.
use fez_meshcore_controller.Prelude.{[], arith, refl, ◌∷◌}
use fez_meshcore_controller.Samples.{sample_config, sample_repeater, toy_node}
use fez_meshcore_controller.Daemon.State
use fez_meshcore_controller.Daemon.MeshTask.Node.{Mesh}
use fez_meshcore_controller.Daemon.Server.{Connection, handle_client, Incoming}
use fez_meshcore_controller.Daemon.Server.Protocol.{Extends, greeting, handle_client-Extends}
use fez_meshcore_controller.Cli.App

abbrev started : Mesh toy_node
started = record {
  world = 0;
  state = State.new (record (sample_config 2 []) { managed_repeaters = sample_repeater ∷ [] }) [];
  calls = [];
  updates = [];
}

abbrev accepted : Connection
accepted = record { state = started.state; uptime_secs = 3; room = 9; sent = [] }

handle_client-Extends_example :
    Extends (greeting accepted) (handle_client (Incoming.lagged ∷ []) accepted).1.sent
handle_client-Extends_example =
    handle_client-Extends (Incoming.lagged ∷ []) accepted (omega arith) refl
