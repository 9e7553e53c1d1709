-- ===== src/Daemon/Server.antt =====
-- daemon/src/server.rs: what the server sends a client. A client's connection takes `room` more
-- messages before a write fails; the answers of the mesh task come with what is received.
pub mod Protocol
use fez_meshcore_controller.Prelude.{
  Bool, List, Option, Text, [], codes, false, map, none, some, suc, true, unwrap_or, zero, ℕ, ◌∷◌,
}
use fez_meshcore_controller.Prelude.Map.{lookup}
use fez_meshcore_controller.Core.Config.{MqttBrokerConfig}
use fez_meshcore_controller.Core.Mesh.{TelemetryDto, PacketLogEntry}
use fez_meshcore_controller.Core.Mesh.Detail.{Outcome, ok, err, RepeaterDetailCategory}
use fez_meshcore_controller.Core.Ipc.{
  Snapshot, MeshEvent, MqttBrokerStatus, MqttBrokerStatusDto, ClientMessage, ServerMessage,
  protocol_version,
}
use fez_meshcore_controller.Daemon.Command.{DaemonCommand}
use fez_meshcore_controller.Daemon.State.{AppState}
use fez_meshcore_controller.Daemon.MeshTask.Node.{Task, ◌>>=◌, ◌>>◌, pure, and_then}

pub record Connection : Type 0 where
  pub state : AppState
  pub uptime_secs : ℕ
  pub room : ℕ
  -- the latest in front
  pub sent : List ServerMessage

-- What waiting for the mesh task gives.
pub data Answer {ℓ} (A : Type ℓ) : Type ℓ where
  replied : Outcome A → Answer A
  not_running dropped timed_out : Answer A

-- What the channel of a detail request gives, up to its end or the deadline.
pub data Receipts : Type 0 where
  category : RepeaterDetailCategory → Receipts → Receipts
  end_of_updates deadline : Receipts

abbrev pub room_left : ℕ → ServerMessage → Connection → Outcome (Unit {0}) × Connection
room_left zero message c = (err (codes "sending IPC message"), c)
room_left (suc room) message c = (ok tt, record c { room = room; sent = message ∷ c.sent })

unfoldable pub send : ServerMessage → Task Connection (Outcome (Unit {0}))
send message c = room_left c.room message c

-- The status of a broker that has none is that of one that is connecting.
unfoldable pub broker_status : AppState → MqttBrokerConfig → MqttBrokerStatusDto
unfolding lookup
broker_status s broker = record {
  name = broker.name;
  status = unwrap_or (lookup broker.name s.mqtt_broker_status) MqttBrokerStatus.connecting;
}

unfoldable pub current_snapshot : Connection → Snapshot
unfolding broker_status
current_snapshot c = record c.state.snapshot {
  uptime_secs = c.uptime_secs;
  regions = c.state.config.regions;
  hashtag_channels = c.state.config.hashtag_channels;
  mqtt_brokers = map (broker_status c.state) c.state.config.mqtt_brokers;
  node_stats = c.state.node_stats;
}

-- The three messages that a client gets first.
unfoldable pub greet : Task Connection (Outcome (Unit {0}))
unfolding send current_snapshot
greet = do
  greeted ← send (ServerMessage.hello protocol_version)
  and_then greeted (λ u. do
    snapshot ← (λ c. (current_snapshot c, c))
    shown ← send (ServerMessage.snapshot_message snapshot)
    and_then shown (λ u'. do
      backlog ← (λ c. (c.state.packet_log, c))
      send (ServerMessage.packet_log backlog)))

-- The command is put into the mesh task's channel, unless that is closed.
abbrev pub issue : {A : Type 0} → DaemonCommand → Answer A → Connection → Connection
issue cmd not_running c = c
issue cmd (replied r) c = record c {
  state = record c.state { commands_sent = cmd ∷ c.state.commands_sent };
}
issue cmd dropped c = record c {
  state = record c.state { commands_sent = cmd ∷ c.state.commands_sent };
}
issue cmd timed_out c = record c {
  state = record c.state { commands_sent = cmd ∷ c.state.commands_sent };
}

abbrev pub outcome_of : {A : Type 0} → Answer A → Outcome A
outcome_of (replied r) = r
outcome_of not_running = err (codes "mesh connection task is not running")
outcome_of dropped = err (codes "mesh connection task dropped the reply")
outcome_of timed_out = err (codes "timed out waiting for the mesh node (offline?)")

unfoldable pub dispatch_command :
    {A : Type 0} → DaemonCommand → Answer A → Task Connection (Outcome A)
dispatch_command cmd answer c = (outcome_of answer, issue cmd answer c)

-- Only a failure is reported.
unfoldable pub report : Outcome (Unit {0}) → Task Connection (Outcome (Unit {0}))
unfolding send
report (ok u) = pure (ok tt)
report (err reason) = send (ServerMessage.error_message reason)

unfoldable pub report_telemetry : Text → Outcome TelemetryDto → Task Connection (Outcome (Unit {0}))
unfolding send
report_telemetry prefix (ok dto) = send (ServerMessage.telemetry_result prefix dto)
report_telemetry prefix (err reason) = send (ServerMessage.error_message reason)

-- The loop of a detail request.
unfoldable pub forward : Text → Receipts → Task Connection (Outcome (Unit {0}))
unfolding send
forward prefix (category c rest) = do
  r ← send (ServerMessage.repeater_detail_category prefix c)
  and_then r (λ u. forward prefix rest)
forward prefix end_of_updates = pure (ok tt)
forward prefix deadline =
    send (ServerMessage.error_message (codes "timed out waiting for the mesh node (offline?)"))

-- `none` when the mesh task's channel is closed.
unfoldable pub dispatch_repeater_detail :
    Text → Option Receipts → Task Connection (Outcome (Unit {0}))
unfolding send forward
dispatch_repeater_detail prefix none =
    send (ServerMessage.error_message (codes "mesh connection task is not running"))
dispatch_repeater_detail prefix (some receipts) = do
  (λ c. (tt, issue {A = Unit {0}} (DaemonCommand.request_repeater_detail prefix) dropped c))
  forward prefix receipts

-- What the mesh task answers to a client's message.
pub record Answers : Type 0 where
  pub command : Answer (Unit {0})
  pub telemetry : Answer TelemetryDto
  pub detail : Option Receipts

unfoldable pub handle_message : ClientMessage → Answers → Task Connection (Outcome (Unit {0}))
unfolding send current_snapshot dispatch_command report report_telemetry dispatch_repeater_detail
handle_message ClientMessage.request_snapshot answers = do
  snapshot ← (λ c. (current_snapshot c, c))
  send (ServerMessage.snapshot_message snapshot)
handle_message (ClientMessage.remove_contact prefix) answers = do
  r ← dispatch_command (DaemonCommand.remove_contact prefix) answers.command
  report r
handle_message (ClientMessage.set_repeater_status prefix name status) answers = do
  r ← dispatch_command (DaemonCommand.set_repeater_status prefix name status) answers.command
  report r
handle_message (ClientMessage.add_repeater key name is_managed) answers = do
  r ← dispatch_command (DaemonCommand.add_repeater key name is_managed) answers.command
  report r
handle_message (ClientMessage.request_telemetry prefix) answers = do
  r ← dispatch_command (DaemonCommand.request_telemetry prefix) answers.telemetry
  report_telemetry prefix r
handle_message (ClientMessage.request_repeater_detail prefix) answers =
    dispatch_repeater_detail prefix answers.detail

-- What `select!` gets: from a broadcast, which may have skipped some or be closed, or a line of the
-- client.
pub data Incoming : Type 0 where
  event : MeshEvent → Incoming
  entry : PacketLogEntry → Incoming
  lagged closed : Incoming
  message : ClientMessage → Answers → Incoming
  invalid_line read_error end_of_lines : Incoming

-- Whether the connection is served further.
unfoldable pub serve : Incoming → Task Connection (Outcome Bool)
unfolding send handle_message
serve (event e) = do r ← send (ServerMessage.event_message e); and_then r (λ u. pure (ok true))
serve (entry e) = do r ← send (ServerMessage.packet_log_entry e); and_then r (λ u. pure (ok true))
serve lagged = pure (ok true)
serve closed = pure (ok false)
serve (message m answers) = do r ← handle_message m answers; and_then r (λ u. pure (ok true))
serve invalid_line = pure (ok true)
serve read_error = pure (ok false)
serve end_of_lines = pure (ok false)

unfoldable pub serve_next :
    Outcome Bool → Task Connection (Outcome (Unit {0})) → Task Connection (Outcome (Unit {0}))
serve_next (ok true) rest = rest
serve_next (ok false) rest = pure (ok tt)
serve_next (err reason) rest = pure (err reason)

unfoldable pub serve_all : List Incoming → Task Connection (Outcome (Unit {0}))
unfolding serve serve_next
serve_all [] = pure (ok tt)
serve_all (i ∷ later) = do r ← serve i; serve_next r (serve_all later)

unfoldable pub handle_client : List Incoming → Task Connection (Outcome (Unit {0}))
unfolding greet serve_all
handle_client incoming = do greeted ← greet; and_then greeted (λ u. serve_all incoming)
