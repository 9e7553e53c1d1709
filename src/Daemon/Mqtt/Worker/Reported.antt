-- ===== src/Daemon/Mqtt/Worker/Reported.antt =====
-- The status that a worker reports of its broker, against its connection, in any run.
use fez_meshcore_controller.Prelude.{
  Bool, Bool-cases, Option, Text, ap, false, inl, inr, ltb, some, text_eq_refl, true, ◌&&◌, ◌∙◌,
  ◌≡◌,
}
use fez_meshcore_controller.Prelude.Map.{lookup, lookup-insert}
use fez_meshcore_controller.Core.Crypto.{Primitives}
use fez_meshcore_controller.Core.Config.{MqttBrokerConfig}
use fez_meshcore_controller.Core.Ipc.{MqttBrokerStatus}
use fez_meshcore_controller.Core.Mesh.{NodeStatsDto}
use fez_meshcore_controller.Core.Mesh.Events.{MeshEventKind}
use fez_meshcore_controller.Core.Mesh.Detail.{Outcome, ok, err}
use fez_meshcore_controller.Daemon.Command.{DaemonCommand, refresh_node_stats, sign_data}
use fez_meshcore_controller.Daemon.Mqtt.{Formats, Instant}
use fez_meshcore_controller.Daemon.Mqtt.Credentials.{Waiting, ask, sent}
use fez_meshcore_controller.Daemon.Mqtt.Publish.{Broker, set_status, publish_current_status}
use fez_meshcore_controller.Daemon.Mqtt.Worker.{
  Select, mesh_kind, is_device, use_credentials, select_round,
}
use fez_meshcore_controller.Daemon.Mqtt.Worker.Rules.{
  when_keeps, if_some_keeps, publish_event_keeps, publish_raw_packet_keeps,
}
use fez_meshcore_controller.Daemon.State.{AppState}

abbrev pub is_connected : Option MqttBrokerStatus → Bool
is_connected (some MqttBrokerStatus.connected) = true
is_connected o = false

module _ (f : Formats) (p : Primitives) (config : MqttBrokerConfig) where
  abbrev pub status_in : AppState → Option MqttBrokerStatus
  status_in s = lookup config.name s.mqtt_broker_status

  -- The broker is reported as connected exactly while it is.
  abbrev pub Reports : Broker → Type 0
  Reports b = is_connected (status_in b.state) ≡ b.mqtt_connected

  -- Other tasks do not write the status of this broker.
  abbrev pub KeepsStatus : (AppState → AppState) → Type 0
  KeepsStatus change = (s : AppState) → status_in (change s) ≡ status_in s

  abbrev pub IsUndisturbed : Select → Type 0
  IsUndisturbed (Select.conn_ack w now) = KeepsStatus w.meanwhile
  IsUndisturbed (Select.heartbeat w now) = KeepsStatus w.meanwhile
  IsUndisturbed (Select.jwt_refresh w now) = KeepsStatus w.meanwhile
  IsUndisturbed (Select.mesh_event e w now) = KeepsStatus w.meanwhile
  IsUndisturbed (Select.others change) = KeepsStatus change
  IsUndisturbed s = Unit

  pub status-set_status :
      (status : MqttBrokerStatus) (b : Broker)
      → status_in (set_status config status b).1.state ≡ some status
  unfolding set_status
  status-set_status status b =
      lookup-insert config.name config.name status b.state.mqtt_broker_status
      ∙ rw (text_eq_refl config.name)

  status-ask :
      {A : Type 0} (cmd : DaemonCommand) (w : Waiting A) (s : AppState)
      → KeepsStatus w.meanwhile
      → status_in (ask cmd w s).1 ≡ status_in s
  unfolding ask
  status-ask cmd w s k = elim (Bool-cases (sent w.reply)) [
    | inl e ↦ rw e (k _)
    | inr e ↦ rw e (k _)
  ]

  publish_current_status-Reports :
      (w : Waiting NodeStatsDto) (now : Instant) (connected : Bool) (b : Broker)
      → KeepsStatus w.meanwhile
      → Reports b
      → Reports (publish_current_status f p config w now connected b).1
  unfolding publish_current_status
  publish_current_status-Reports w now connected b k h =
      when_keeps Reports config.enable_high_level_messages _ b h (λ e.
        if_some_keeps Reports b.state.snapshot.self_info _ b h
          (λ info q. ap is_connected (status-ask refresh_node_stats w b.state k) ∙ h))

  mesh_kind-Reports :
      (kind : MeshEventKind) (w : Waiting NodeStatsDto) (now : Instant) (b : Broker)
      → KeepsStatus w.meanwhile
      → Reports b
      → Reports (mesh_kind f p config kind w now b).1
  unfolding mesh_kind
  mesh_kind-Reports MeshEventKind.connected w now b k h =
      publish_current_status-Reports w now true (record b { mesh_connected = true }) k h
  mesh_kind-Reports MeshEventKind.disconnected w now b k h =
      publish_current_status-Reports w now false (record b { mesh_connected = false }) k h
  mesh_kind-Reports kind w now b k h = h

  use_credentials-Reports :
      (c : Outcome (Text × Text)) (b : Broker) → Reports b → Reports (use_credentials c b).1
  use_credentials-Reports (ok c) b h = h
  use_credentials-Reports (err reason) b h = h

  pub select_round-Reports :
      (s : Select) (b : Broker)
      → IsUndisturbed s
      → Reports b
      → Reports (select_round f p config s b).1
  unfolding select_round
  select_round-Reports (Select.conn_ack w now) b k h =
      publish_current_status-Reports w now b.state.snapshot.mesh_connected _ k (
        ap is_connected
          (status-set_status MqttBrokerStatus.connected (record b { mqtt_connected = true })))
  select_round-Reports (Select.heartbeat w now) b k h =
      when_keeps Reports (ltb 0 config.status_refresh_interval_secs && b.mqtt_connected) _ b h
        (λ on. publish_current_status-Reports w now b.mesh_connected b k h)
  select_round-Reports Select.other_packet b k h = h
  select_round-Reports (Select.poll_error reason) b k h =
      ap is_connected
        (status-set_status (MqttBrokerStatus.error reason) (record b { mqtt_connected = false }))
  select_round-Reports (Select.jwt_refresh w now) b k h =
      when_keeps Reports (is_device config.auth_method) _ b h (λ on.
        if_some_keeps Reports b.state.snapshot.self_info _ b h (λ info q.
          use_credentials-Reports _ _ (ap is_connected (status-ask (sign_data _) w b.state k) ∙ h)))
  select_round-Reports (Select.mesh_event e w now) b k h = mesh_kind-Reports e.kind w now b k h
  select_round-Reports (Select.raw_event e now) b k h =
      publish_raw_packet_keeps Reports f p config (λ q c g. g) e now _
        (publish_event_keeps Reports f p config (λ q c g. g) e b h)
  select_round-Reports Select.lagged b k h = h
  select_round-Reports Select.closed b k h = h
  select_round-Reports (Select.others change) b k h = ap is_connected (k b.state) ∙ h
