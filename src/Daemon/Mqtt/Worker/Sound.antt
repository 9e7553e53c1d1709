-- ===== src/Daemon/Mqtt/Worker/Sound.antt =====
-- What a broker's worker publishes in a round.
use fez_meshcore_controller.Prelude.{
  All, All-members, Bool, Member, Option, Text, arith, false, inl, inr, ltb, refl, some, sym, true,
  ◌&&◌, ◌||◌, ◌∙◌, ◌≡◌, ◌⊎◌,
}
use fez_meshcore_controller.Core.Crypto.{Primitives}
use fez_meshcore_controller.Core.Config.{MqttBrokerConfig}
use fez_meshcore_controller.Core.Json.{Value}
use fez_meshcore_controller.Core.Mesh.{SelfInfoDto, NodeStatsDto, PacketLogEntry}
use fez_meshcore_controller.Core.Mesh.Packet.{build_packet_log_entry}
use fez_meshcore_controller.Core.Mesh.Detail.{Outcome, ok, err}
use fez_meshcore_controller.Core.Ipc.{MeshEvent}
use fez_meshcore_controller.Daemon.State.{set_mqtt_broker_status}
use fez_meshcore_controller.Core.Mesh.Events.{MeshEventKind}
use fez_meshcore_controller.Core.Mesh.Source.{MeshCoreEvent}
use fez_meshcore_controller.Daemon.Mqtt.{Formats, Instant}
use fez_meshcore_controller.Daemon.Mqtt.Credentials.{Waiting}
use fez_meshcore_controller.Daemon.Mqtt.Events.{topic_for, payload_json}
use fez_meshcore_controller.Daemon.Mqtt.Message.{
  resolve_topic_template, status_message_json, packet_trafic_json, raw_json,
}
use fez_meshcore_controller.Daemon.Mqtt.Publish.{
  Publish, Broker, publish, set_status, publish_current_status, publish_event, publish_value,
  publish_raw_packet,
}
use fez_meshcore_controller.Daemon.Mqtt.Worker.{
  Select, mesh_kind, is_device, use_credentials, select_round,
}
use fez_meshcore_controller.Daemon.Mqtt.Worker.Rules.{
  when_keeps, if_some_keeps, publish_event_keeps,
}

-- Whether the mesh is connected and the time, as the status of a round gives them.
pub data Says (c : Broker) : Select → Bool → Instant → Type 0 where
  on_connection :
      {w : Waiting NodeStatsDto} {now : Instant}
      → Says c (Select.conn_ack w now) c.state.snapshot.mesh_connected now
  on_heartbeat :
      {w : Waiting NodeStatsDto} {now : Instant}
      → c.mqtt_connected ≡ true
      → Says c (Select.heartbeat w now) c.mesh_connected now
  on_mesh :
      {e : MeshEvent} {w : Waiting NodeStatsDto} {now : Instant}
      → e.kind ≡ MeshEventKind.connected
      → Says c (Select.mesh_event e w now) true now
  on_mesh_lost :
      {e : MeshEvent} {w : Waiting NodeStatsDto} {now : Instant}
      → e.kind ≡ MeshEventKind.disconnected
      → Says c (Select.mesh_event e w now) false now

module _ (f : Formats) (p : Primitives) (config : MqttBrokerConfig) where
  -- The four kinds of message of a round that begins with a worker's state, each with the setting
  -- that it needs. Only a status is retained. The status and the packets are of the node that the
  -- state knows then, the events and the packets of the event that the round gets.
  pub data FromRound (c : Broker) (s : Select) : Publish → Type 0 where
    status :
        (connected : Bool) (info : SelfInfoDto) (stats : Option NodeStatsDto) (now : Instant)
        → config.enable_high_level_messages ≡ true
        → Says c s connected now
        → c.state.snapshot.self_info ≡ some info
        → FromRound c s (record {
          topic = resolve_topic_template f config.status_topic config info;
          retain = true;
          body =
              f.encoders.to_vec
                (status_message_json f connected info c.state.device_info stats now);
        })
    event :
        (event : MeshCoreEvent) (now : Instant) (topic : Text)
        → config.enable_high_level_messages ≡ true
        → s ≡ Select.raw_event event now
        → topic_for event config.topic_prefix ≡ some topic
        → FromRound c s (record {
          topic = topic;
          retain = false;
          body = f.encoders.to_vec (payload_json f event);
        })
    packet :
        (event : MeshCoreEvent) (entry : PacketLogEntry) (info : SelfInfoDto) (now : Instant)
        (body : Value)
        → config.enable_packet_trafic_messages ≡ true
        → s ≡ Select.raw_event event now
        → c.state.snapshot.self_info ≡ some info
        → build_packet_log_entry f.names event 0 now.unix ≡ some entry
        → packet_trafic_json f p entry info now ≡ some body
        → FromRound c s (record {
          topic = resolve_topic_template f config.packet_trafic_topic config info;
          retain = false;
          body = f.encoders.to_vec body;
        })
    raw :
        (event : MeshCoreEvent) (entry : PacketLogEntry) (info : SelfInfoDto) (now : Instant)
        (body : Value)
        → config.enable_raw_messages ≡ true
        → s ≡ Select.raw_event event now
        → c.state.snapshot.self_info ≡ some info
        → build_packet_log_entry f.names event 0 now.unix ≡ some entry
        → raw_json f entry info now ≡ some body
        → FromRound c s (record {
          topic = resolve_topic_template f config.raw_topic config info;
          retain = false;
          body = f.encoders.to_vec body;
        })

  module _ (c : Broker) (s : Select) where
    -- Every message is an earlier one or of the round.
    abbrev pub Grows : Broker → Type 0
    Grows b = All (λ m. Member m c.published ⊎ FromRound c s m) b.published

    abbrev IsSameNode : Broker → Type 0
    IsSameNode b =
        (b.state.snapshot.self_info ≡ c.state.snapshot.self_info)
        × (b.state.device_info ≡ c.state.device_info)

    Grows-start : Grows c
    Grows-start = All-members _ c.published (λ m h. inl h)

    publish_current_status-Grows :
        (w : Waiting NodeStatsDto) (now : Instant) (connected : Bool) (b : Broker)
        → IsSameNode b
        → Says c s connected now
        → Grows b
        → Grows (publish_current_status f p config w now connected b).1
    unfolding publish_current_status
    publish_current_status-Grows w now connected b same says h =
        when_keeps Grows config.enable_high_level_messages _ b h (λ e.
          if_some_keeps Grows b.state.snapshot.self_info _ b h
            (λ info k. rw same.1 (inr (status connected info _ now e says (sym same.0 ∙ k)), h)))

    module _ (e : MeshCoreEvent) (now : Instant) (got : s ≡ Select.raw_event e now) where
      publish_event-Grows : (b : Broker) → Grows b → Grows (publish_event f p config e b).1
      unfolding publish_event
      publish_event-Grows b h = when_keeps Grows config.enable_high_level_messages _ b h (λ on.
          if_some_keeps Grows (topic_for e config.topic_prefix) _ b h
            (λ topic k. (inr (event e now topic on got k), h)))

      publish_value-Grows :
          (template : Text) (info : SelfInfoDto) (body : Option Value) (b : Broker)
          → ((v : Value)
              → body ≡ some v
              → FromRound c s (record {
                topic = resolve_topic_template f template config info;
                retain = false;
                body = f.encoders.to_vec v;
              }))
          → Grows b
          → Grows (publish_value f p config template info body b).1
      unfolding publish_value
      publish_value-Grows template info body b k h =
          if_some_keeps Grows body _ b h (λ v e. (inr (k v e), h))

      publish_raw_packet-Grows :
          (b : Broker) → IsSameNode b → Grows b → Grows (publish_raw_packet f p config e now b).1
      unfolding publish_raw_packet
      publish_raw_packet-Grows b same h =
          when_keeps Grows (config.enable_packet_trafic_messages || config.enable_raw_messages) _ b
            h
            (λ any. if_some_keeps Grows b.state.snapshot.self_info _ b h (λ info k.
              if_some_keeps Grows (build_packet_log_entry f.names e 0 now.unix) _ b h
                (λ entry built.
                  let known = sym same.0 ∙ k in
                  let first = when_keeps Grows config.enable_packet_trafic_messages _ b h (λ on.
                    publish_value-Grows config.packet_trafic_topic info
                      (packet_trafic_json f p entry info now) b
                      (λ v q. packet e entry info now v on got known built q) h) in
                  when_keeps Grows config.enable_raw_messages _ _ first (λ on.
                    publish_value-Grows config.raw_topic info (raw_json f entry info now) _
                      (λ v q. raw e entry info now v on got known built q) first))))

      raw_event-Grows :
          Grows (publish_raw_packet f p config e now (publish_event f p config e c).1).1
      unfolding publish
      raw_event-Grows =
          publish_raw_packet-Grows _
            (publish_event_keeps IsSameNode f p config (λ q b h. h) e c (refl, refl))
            (publish_event-Grows c Grows-start)

  use_credentials-Grows :
      (o : Outcome (Text × Text)) (c : Broker) (s : Select) (b : Broker)
      → Grows c s b
      → Grows c s (use_credentials o b).1
  use_credentials-Grows (ok a) c s b h = h
  use_credentials-Grows (err reason) c s b h = h

  mesh_kind-Grows :
      (k : MeshEventKind) (e : MeshEvent) (w : Waiting NodeStatsDto) (now : Instant) (c : Broker)
      → e.kind ≡ k
      → Grows c (Select.mesh_event e w now) (mesh_kind f p config k w now c).1
  unfolding mesh_kind
  mesh_kind-Grows MeshEventKind.connected e w now c q =
      publish_current_status-Grows c (Select.mesh_event e w now) w now true _ (refl, refl)
        (on_mesh q) (Grows-start c (Select.mesh_event e w now))
  mesh_kind-Grows MeshEventKind.disconnected e w now c q =
      publish_current_status-Grows c (Select.mesh_event e w now) w now false _ (refl, refl)
        (on_mesh_lost q) (Grows-start c (Select.mesh_event e w now))
  mesh_kind-Grows kind e w now c q = Grows-start c (Select.mesh_event e w now)

  and-right : (a b : Bool) → (a && b) ≡ true → b ≡ true
  and-right a b h = ground (arith, h)

  pub select_round-Grows : (s : Select) (c : Broker) → Grows c s (select_round f p config s c).1
  unfolding select_round set_status set_mqtt_broker_status
  select_round-Grows (Select.conn_ack w now) c =
      publish_current_status-Grows c (Select.conn_ack w now) w now _ _ (refl, refl) on_connection
        (Grows-start c (Select.conn_ack w now))
  select_round-Grows (Select.heartbeat w now) c =
      when_keeps (Grows c (Select.heartbeat w now))
        (ltb 0 config.status_refresh_interval_secs && c.mqtt_connected) _ c
        (Grows-start c (Select.heartbeat w now))
        (λ on.
          publish_current_status-Grows c (Select.heartbeat w now) w now c.mesh_connected c
            (refl, refl) (on_heartbeat (and-right _ _ on)) (Grows-start c (Select.heartbeat w now)))
  select_round-Grows Select.other_packet c = Grows-start c Select.other_packet
  select_round-Grows (Select.poll_error reason) c = Grows-start c (Select.poll_error reason)
  select_round-Grows (Select.jwt_refresh w now) c =
      let start = Grows-start c (Select.jwt_refresh w now) in
      when_keeps (Grows c (Select.jwt_refresh w now)) (is_device config.auth_method) _ c start
        (λ on.
          if_some_keeps (Grows c (Select.jwt_refresh w now)) c.state.snapshot.self_info _ c start
            (λ info k. use_credentials-Grows _ c (Select.jwt_refresh w now) _ start))
  select_round-Grows (Select.mesh_event e w now) c = mesh_kind-Grows e.kind e w now c refl
  select_round-Grows (Select.raw_event e now) c =
      raw_event-Grows c (Select.raw_event e now) e now refl
  select_round-Grows Select.lagged c = Grows-start c Select.lagged
  select_round-Grows Select.closed c = Grows-start c Select.closed
  select_round-Grows (Select.others change) c = Grows-start c (Select.others change)
