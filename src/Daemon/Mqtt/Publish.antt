-- ===== src/Daemon/Mqtt/Publish.antt =====
-- What a broker's worker publishes, of daemon/src/mqtt.rs. A message that rumqttc refuses is only
-- logged.
use fez_meshcore_controller.Prelude.{
  Bool, List, Option, Text, false, none, some, true, ℕ, ◌||◌, ◌∷◌,
}
use fez_meshcore_controller.Core.Crypto.{Primitives}
use fez_meshcore_controller.Core.Config.{MqttBrokerConfig}
use fez_meshcore_controller.Core.Ipc.{MqttBrokerStatus}
use fez_meshcore_controller.Core.Json.{Value}
use fez_meshcore_controller.Core.Mesh.{SelfInfoDto, NodeStatsDto}
use fez_meshcore_controller.Core.Mesh.Packet.{build_packet_log_entry}
use fez_meshcore_controller.Core.Mesh.Source.{MeshCoreEvent}
use fez_meshcore_controller.Daemon.MeshTask.Node.{Task, ◌>>=◌, ◌>>◌, pure, when}
use fez_meshcore_controller.Daemon.Mqtt.{Formats, Instant}
use fez_meshcore_controller.Daemon.Mqtt.Credentials.{Waiting, Transport, refresh_stats}
use fez_meshcore_controller.Daemon.Mqtt.Events.{topic_for, payload_json}
use fez_meshcore_controller.Daemon.Mqtt.Message.{
  resolve_topic_template, status_message_json, packet_trafic_json, raw_json,
}
use fez_meshcore_controller.Daemon.State.{AppState, set_mqtt_broker_status}

-- A message, always at most once.
pub record Publish : Type 0 where
  pub topic : Text
  pub retain : Bool
  pub body : Text

pub record MqttOptions : Type 0 where
  pub client_id : Text
  pub host : Text
  pub port : ℕ
  pub keep_alive_secs : ℕ
  pub credentials : Option (Text × Text)
  pub transport : Option Transport
  pub last_will : Option Publish

-- `published` has the latest in front. `disconnects` counts the forced reconnections.
pub record Broker : Type 0 where
  pub state : AppState
  pub options : MqttOptions
  pub mqtt_connected : Bool
  pub mesh_connected : Bool
  pub published : List Publish
  pub disconnects : ℕ

abbrev pub on_state : {A : Type 0} → Task AppState A → Task Broker A
on_state m b = ((m b.state).0, record b { state = (m b.state).1 })

unfoldable pub publish : Publish → Task Broker (Unit {0})
publish p b = (tt, record b { published = p ∷ b.published })

unfoldable pub set_status : MqttBrokerConfig → MqttBrokerStatus → Task Broker (Unit {0})
unfolding set_mqtt_broker_status
set_status config status b =
    (tt, record b { state = set_mqtt_broker_status b.state config.name status })

abbrev pub if_some : {A : Type 0} → Option A → (A → Task Broker (Unit {0})) → Task Broker (Unit {0})
if_some none k = pure tt
if_some (some a) k = k a

module _ (f : Formats) (p : Primitives) (config : MqttBrokerConfig) where
  unfoldable pub publish_current_status :
      Waiting NodeStatsDto → Instant → Bool → Task Broker (Unit {0})
  unfolding publish refresh_stats resolve_topic_template status_message_json
  publish_current_status w now mesh_connected = when config.enable_high_level_messages (do
    self_info ← (λ b. (b.state.snapshot.self_info, b))
    if_some self_info (λ info. do
      device_info ← (λ b. (b.state.device_info, b))
      node_stats ← on_state (refresh_stats w)
      publish (record {
        topic = resolve_topic_template f config.status_topic config info;
        retain = true;
        body =
            f.encoders.to_vec
              (status_message_json f mesh_connected info device_info node_stats now);
      })))

  unfoldable pub publish_event : MeshCoreEvent → Task Broker (Unit {0})
  unfolding publish topic_for payload_json
  publish_event event = when config.enable_high_level_messages (
      if_some (topic_for event config.topic_prefix) (λ topic. publish (record {
        topic = topic;
        retain = false;
        body = f.encoders.to_vec (payload_json f event);
      })))

  -- A raw message, if it has a body.
  unfoldable pub publish_value : Text → SelfInfoDto → Option Value → Task Broker (Unit {0})
  unfolding publish resolve_topic_template
  publish_value template info body = if_some body (λ v. publish (record {
    topic = resolve_topic_template f template config info;
    retain = false;
    body = f.encoders.to_vec v;
  }))

  unfoldable pub publish_raw_packet : MeshCoreEvent → Instant → Task Broker (Unit {0})
  unfolding publish_value build_packet_log_entry packet_trafic_json raw_json
  publish_raw_packet event now =
      when (config.enable_packet_trafic_messages || config.enable_raw_messages) (do
        self_info ← (λ b. (b.state.snapshot.self_info, b))
        if_some self_info (λ info.
            if_some (build_packet_log_entry f.names event 0 now.unix) (λ entry. do
              when config.enable_packet_trafic_messages (
                  publish_value config.packet_trafic_topic info
                    (packet_trafic_json f p entry info now))
              when config.enable_raw_messages
                  (publish_value config.raw_topic info (raw_json f entry info now)))))
