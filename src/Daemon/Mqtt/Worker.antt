-- ===== src/Daemon/Mqtt/Worker.antt =====
-- `run_broker` of daemon/src/mqtt.rs: the start of a broker's worker and its loop. What rumqttc does
-- with the options and the messages is outside.
pub mod Rules
pub mod Sound
pub mod Reported
pub mod Published
pub mod Started
use fez_meshcore_controller.Prelude.{
  Bool, List, Option, Text, [], codes, decimal, false, if◌then◌else◌, ltb, none, some, true, ℕ,
  ◌&&◌, ◌++◌, ◌+◌, ◌∷◌,
}
use fez_meshcore_controller.Core.Hex.{Bytes}
use fez_meshcore_controller.Core.Crypto.{Primitives}
use fez_meshcore_controller.Core.Config.{
  MqttBrokerConfig, MqttAuthMethod, passwd, device, anonymous,
}
use fez_meshcore_controller.Core.Ipc.{MeshEvent, MqttBrokerStatus}
use fez_meshcore_controller.Core.Mesh.{SelfInfoDto, NodeStatsDto}
use fez_meshcore_controller.Core.Mesh.Detail.{Outcome, ok, err}
use fez_meshcore_controller.Core.Mesh.Events.{MeshEventKind}
use fez_meshcore_controller.Core.Mesh.Source.{MeshCoreEvent}
use fez_meshcore_controller.Daemon.MeshTask.Node.{Task, ◌>>=◌, ◌>>◌, pure, when}
use fez_meshcore_controller.Daemon.Mqtt.{Formats, Instant}
use fez_meshcore_controller.Daemon.Mqtt.Credentials.{
  Waiting, Files, Transport, is_websocket, build_device_signed_credentials, wait_for_self_info,
  build_transport,
}
use fez_meshcore_controller.Daemon.Mqtt.Message.{
  resolve_topic_template_best_effort, offline_lwt_payload,
}
use fez_meshcore_controller.Daemon.State.{AppState}
use fez_meshcore_controller.Daemon.Mqtt.Publish.{
  Publish, MqttOptions, Broker, on_state, set_status, if_some, publish_current_status,
  publish_event, publish_raw_packet,
}

-- What outside of the worker the start depends on.
pub record Start : Type 0 where
  pub process_id : ℕ
  pub seconds : List (AppState → AppState)
  pub signing : Waiting (Outcome Bytes)
  pub files : Files
  pub now : Instant

abbrev pub set_options : (MqttOptions → MqttOptions) → Task Broker (Unit {0})
set_options change b = (tt, record b { options = change b.options })

abbrev pub and_if : Task Broker Bool → Task Broker Bool → Task Broker Bool
and_if m k = do go ← m; if go then k else pure false

-- What `select!` gets, with what its branch waits for; `others` is what other tasks do to the
-- state between two rounds.
pub data Select : Type 0 where
  conn_ack heartbeat : Waiting NodeStatsDto → Instant → Select
  other_packet : Select
  poll_error : Text → Select
  jwt_refresh : Waiting (Outcome Bytes) → Instant → Select
  mesh_event : MeshEvent → Waiting NodeStatsDto → Instant → Select
  raw_event : MeshCoreEvent → Instant → Select
  lagged closed : Select
  others : (AppState → AppState) → Select

abbrev pub is_device : MqttAuthMethod → Bool
is_device device = true
is_device m = false

abbrev pub use_credentials : Outcome (Text × Text) → Task Broker (Unit {0})
use_credentials (err reason) b = (tt, b)
use_credentials (ok c) b = (
  tt,
  record b {
    options = record b.options { credentials = some c };
    disconnects = if b.mqtt_connected then b.disconnects + 1 else b.disconnects;
  },
)

module _ (f : Formats) (p : Primitives) (config : MqttBrokerConfig) where
  abbrev pub options_of : ℕ → MqttOptions
  unfolding decimal
  options_of process_id =
      let client_id =
        codes "fez-mesh-controller-" ++ (config.name ++ (b'-' ∷ decimal process_id)) in
      let scheme = if config.tls_enabled then codes "wss" else codes "ws" in
      let url =
        scheme
        ++ (codes "://"
            ++ (config.host ++ (b':' ∷ decimal config.port ++ config.websocket_path))) in
      record {
        client_id = client_id;
        host = if is_websocket config.transport_protocol then url else config.host;
        port = config.port;
        keep_alive_secs = 60;
        credentials = none;
        transport = none;
        last_will = none;
      }

  -- A failure of the start is the broker's status, and ends the worker.
  abbrev pub stop : Text → Task Broker Bool
  unfolding set_status
  stop reason = do set_status config (MqttBrokerStatus.error reason); pure false

  unfoldable pub use_signed : Outcome (Text × Text) → Task Broker Bool
  unfolding set_status
  use_signed (err reason) = stop reason
  use_signed (ok c) = do set_options (λ o. record o { credentials = some c }); pure true

  unfoldable pub use_self_info : Start → Option SelfInfoDto → Task Broker Bool
  unfolding use_signed build_device_signed_credentials set_status
  use_self_info start none =
      stop (codes "timed out waiting for mesh connection to build device-signed auth credentials")
  use_self_info start (some info) = do
    built ← on_state (build_device_signed_credentials f info config start.now start.signing)
    use_signed built

  unfoldable pub use_transport : Outcome Transport → Task Broker Bool
  unfolding set_status
  use_transport (err reason) = stop reason
  use_transport (ok t) = do set_options (λ o. record o { transport = some t }); pure true

  unfoldable pub set_auth : MqttAuthMethod → Start → Task Broker Bool
  unfolding use_self_info wait_for_self_info
  set_auth device start = do
    self_info ← on_state (wait_for_self_info start.seconds)
    use_self_info start self_info
  set_auth passwd start = do
    if_some config.username (λ u.
        if_some config.password (λ w. set_options (λ o. record o { credentials = some (u, w) })))
    pure true
  set_auth anonymous start = pure true

  unfoldable pub set_tls : Start → Task Broker Bool
  unfolding use_transport build_transport
  set_tls start =
      if config.tls_enabled then use_transport (build_transport start.files config) else pure true

  unfoldable pub set_will : Start → Task Broker (Unit {0})
  unfolding resolve_topic_template_best_effort offline_lwt_payload
  set_will start = when config.enable_high_level_messages (do
    self_info ← (λ b. (b.state.snapshot.self_info, b))
    let will : Publish = record {
      topic = resolve_topic_template_best_effort f config.status_topic config self_info;
      retain = true;
      body = f.encoders.to_vec (offline_lwt_payload f self_info start.now);
    }
    set_options (λ o. record o { last_will = some will }))

  -- The options are complete, and the client is made.
  unfoldable pub connect : Start → Task Broker Bool
  unfolding set_will set_status
  connect start = do
    set_will start
    (λ b.
        (tt, record b { mqtt_connected = false; mesh_connected = b.state.snapshot.mesh_connected }))
    set_status config MqttBrokerStatus.connecting
    pure true

  -- Whether the loop is reached.
  unfoldable pub start_broker : Start → Task Broker Bool
  unfolding set_auth set_tls connect
  start_broker start = do
    set_options (λ o. options_of start.process_id)
    and_if (set_auth config.auth_method start) (and_if (set_tls start) (connect start))

  unfoldable pub mesh_kind : MeshEventKind → Waiting NodeStatsDto → Instant → Task Broker (Unit {0})
  unfolding publish_current_status
  mesh_kind MeshEventKind.connected w now = do
    (λ b. (tt, record b { mesh_connected = true }))
    publish_current_status f p config w now true
  mesh_kind MeshEventKind.disconnected w now = do
    (λ b. (tt, record b { mesh_connected = false }))
    publish_current_status f p config w now false
  mesh_kind kind w now = pure tt

  -- Whether the loop goes on. A branch that is not enabled is not taken.
  unfoldable pub select_round : Select → Task Broker Bool
  unfolding set_status publish_current_status mesh_kind build_device_signed_credentials
      publish_event publish_raw_packet
  select_round (conn_ack w now) = do
    (λ b. (tt, record b { mqtt_connected = true }))
    set_status config MqttBrokerStatus.connected
    (λ b. (tt, record b { mesh_connected = b.state.snapshot.mesh_connected }))
    (λ b. publish_current_status f p config w now b.mesh_connected b)
    pure true
  select_round other_packet = pure true
  select_round (poll_error reason) = do
    (λ b. (tt, record b { mqtt_connected = false }))
    set_status config (MqttBrokerStatus.error reason)
    pure true
  select_round (heartbeat w now) = do
    (λ b.
        when (ltb 0 config.status_refresh_interval_secs && b.mqtt_connected)
          (publish_current_status f p config w now b.mesh_connected) b)
    pure true
  select_round (jwt_refresh w now) = do
    when (is_device config.auth_method) (do
      self_info ← (λ b. (b.state.snapshot.self_info, b))
      if_some self_info (λ info. do
        built ← on_state (build_device_signed_credentials f info config now w)
        use_credentials built))
    pure true
  select_round (mesh_event event w now) = do mesh_kind event.kind w now; pure true
  select_round (raw_event event now) = do
    publish_event f p config event
    publish_raw_packet f p config event now
    pure true
  select_round lagged = pure true
  select_round closed = pure false
  select_round (others change) = λ b. (true, record b { state = change b.state })

  unfoldable pub serve_broker : List Select → Task Broker (Unit {0})
  unfolding select_round
  serve_broker [] = pure tt
  serve_broker (s ∷ later) = do go ← select_round s; if go then serve_broker later else pure tt

  unfoldable pub run_broker : Start → List Select → Task Broker Bool
  unfolding start_broker serve_broker
  run_broker start selects = do
    started ← start_broker start
    when started (serve_broker selects)
    pure started
