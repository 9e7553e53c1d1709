-- ===== src/Daemon/Mqtt/Worker/Rules.antt =====
-- What a predicate on the worker's state keeps through a branch.
use fez_meshcore_controller.Prelude.{
  All, Bool, Bool-cases, List, Option, Text, [], false, if◌then◌else◌, inl, inr, none, refl, some,
  true, ◌||◌, ◌∷◌, ◌≡◌,
}
use fez_meshcore_controller.Core.Config.{MqttBrokerConfig}
use fez_meshcore_controller.Core.Crypto.{Primitives}
use fez_meshcore_controller.Daemon.Mqtt.{Formats}
use fez_meshcore_controller.Daemon.Mqtt.Worker.{Select, and_if, select_round, serve_broker}
use fez_meshcore_controller.Daemon.MeshTask.Node.{Task, when}
use fez_meshcore_controller.Daemon.Mqtt.Publish.{Broker, if_some}
use fez_meshcore_controller.Core.Json.{Value}
use fez_meshcore_controller.Core.Mesh.{SelfInfoDto}
use fez_meshcore_controller.Core.Mesh.Packet.{build_packet_log_entry}
use fez_meshcore_controller.Core.Mesh.Source.{MeshCoreEvent}
use fez_meshcore_controller.Daemon.Mqtt.{Instant}
use fez_meshcore_controller.Daemon.Mqtt.Events.{topic_for}
use fez_meshcore_controller.Daemon.Mqtt.Message.{packet_trafic_json}
use fez_meshcore_controller.Daemon.Mqtt.Publish.{
  Publish, publish, publish_event, publish_value, publish_raw_packet,
}

module _ (P : Broker → Type 0) where
  pub when_keeps :
      (c : Bool) (m : Task Broker (Unit {0})) (b : Broker)
      → P b
      → (c ≡ true → P (m b).1)
      → P (when c m b).1
  when_keeps true m b h k = k refl
  when_keeps false m b h k = h

  pub if_some_keeps :
      {A : Type 0} (o : Option A) (k : A → Task Broker (Unit {0})) (b : Broker)
      → P b
      → ((a : A) → o ≡ some a → P (k a b).1)
      → P (if_some o k b).1
  if_some_keeps none k b h g = h
  if_some_keeps (some a) k b h g = g a refl

  pub and_if_keeps :
      (m k : Task Broker Bool) (b : Broker)
      → P (m b).1
      → ((c : Broker) → P c → P (k c).1)
      → P (and_if m k b).1
  and_if_keeps m k b h g = elim (Bool-cases (m b).0) [ inl e ↦ rw e (g (m b).1 h) | inr e ↦ rw e h ]

  pub if_keeps :
      (c : Bool) (m k : Task Broker Bool) (b : Broker)
      → P (m b).1
      → P (k b).1
      → P ((if c then m else k) b).1
  if_keeps true m k b h g = h
  if_keeps false m k b h g = g

  module _ (f : Formats) (p : Primitives) (config : MqttBrokerConfig) where
    -- A run of rounds of a kind keeps what each of them keeps.
    pub serve_keeps :
        (Q : Select → Type 0)
        → ((s : Select) (b : Broker) → Q s → P b → P (select_round f p config s b).1)
        → (selects : List Select) (b : Broker) → All Q selects
        → P b
        → P (serve_broker f p config selects b).1
    unfolding serve_broker
    serve_keeps Q keep [] b q h = h
    serve_keeps Q keep (s ∷ later) b q h = elim (Bool-cases (select_round f p config s b).0) [
      | inl e ↦ rw e (serve_keeps Q keep later (select_round f p config s b).1 q.1 (keep s b q.0 h))
      | inr e ↦ rw e (keep s b q.0 h)
    ]

    module _ (keep : (q : Publish) (b : Broker) → P b → P (publish q b).1) where
      pub publish_event_keeps :
          (e : MeshCoreEvent) (b : Broker) → P b → P (publish_event f p config e b).1
      unfolding publish_event
      publish_event_keeps e b h =
          when_keeps config.enable_high_level_messages _ b h
            (λ on. if_some_keeps (topic_for e config.topic_prefix) _ b h (λ topic k. keep _ b h))

      publish_value_keeps :
          (template : Text) (info : SelfInfoDto) (body : Option Value) (b : Broker)
          → P b
          → P (publish_value f p config template info body b).1
      unfolding publish_value
      publish_value_keeps template info body b h = if_some_keeps body _ b h (λ v k. keep _ b h)

      pub publish_raw_packet_keeps :
          (e : MeshCoreEvent) (now : Instant) (b : Broker)
          → P b
          → P (publish_raw_packet f p config e now b).1
      unfolding publish_raw_packet
      publish_raw_packet_keeps e now b h =
          when_keeps (config.enable_packet_trafic_messages || config.enable_raw_messages) _ b h
            (λ any. if_some_keeps b.state.snapshot.self_info _ b h (λ info k.
              if_some_keeps (build_packet_log_entry f.names e 0 now.unix) _ b h (λ entry built.
                let first = when config.enable_packet_trafic_messages (
                  publish_value f p config config.packet_trafic_topic info
                    (packet_trafic_json f p entry info now)) in
                let kept : P (first b).1 =
                  when_keeps config.enable_packet_trafic_messages _ b h
                    (λ on. publish_value_keeps config.packet_trafic_topic info _ b h) in
                when_keeps config.enable_raw_messages _ (first b).1 kept
                  (λ on. publish_value_keeps config.raw_topic info _ (first b).1 kept))))
