-- ===== src/Daemon/Examples/Mqtt.antt =====
-- The theorems on the MQTT worker at a concrete broker and run.
use fez_meshcore_controller.Prelude.{List, [], codes, false, map, none, refl, some, true, ◌∷◌, ◌≡◌}
use fez_meshcore_controller.Prelude.Int.{pos}
use fez_meshcore_controller.Core.Config.{MqttBrokerConfig}
use fez_meshcore_controller.Core.Ipc.{default_snapshot}
use fez_meshcore_controller.Core.Json.{string, get}
use fez_meshcore_controller.Core.Mesh.{DeviceInfoDto, NodeStatsDto}
use fez_meshcore_controller.Core.Mesh.Detail.{err}
use fez_meshcore_controller.Core.Mesh.Events.{MeshEventKind}
use fez_meshcore_controller.Core.Mesh.Source.{EventType, EventPayload, MeshCoreEvent}
use fez_meshcore_controller.Daemon.Mqtt.{Instant}
use fez_meshcore_controller.Daemon.Mqtt.Credentials.{Waiting, timed_out}
use fez_meshcore_controller.Daemon.Mqtt.Events.Naming.{}
use fez_meshcore_controller.Daemon.Mqtt.Message.{status_fields, lwt_fields}
use fez_meshcore_controller.Daemon.Mqtt.Message.Status.{IsReported, IsSubset, status_fields_report}
use fez_meshcore_controller.Daemon.Mqtt.Publish.{Broker}
use fez_meshcore_controller.Daemon.Mqtt.Worker.{Start, Select, run_broker}
use fez_meshcore_controller.Daemon.State.{AppState, new}
use fez_meshcore_controller.Samples.{
  sample_broker, sample_config, sample_self_info, toy_formats, toy_primitives,
}

abbrev broker : MqttBrokerConfig
broker = sample_broker (codes "local") 1883

abbrev now : Instant
now = record { unix = pos 1700000000; micros = 5 }

abbrev state : AppState
state = record (new (sample_config 10 (broker ∷ [])) []) {
  snapshot = record default_snapshot { self_info = some sample_self_info };
}

abbrev no_stats : Waiting NodeStatsDto
no_stats = record { reply = timed_out; meanwhile = λ s. s }

abbrev idle : Broker
idle = record {
  state = state;
  options = record {
    client_id = [];
    host = [];
    port = 0;
    keep_alive_secs = 0;
    credentials = none;
    transport = none;
    last_will = none;
  };
  mqtt_connected = false;
  mesh_connected = false;
  published = [];
  disconnects = 0;
}

abbrev start : Start
start = record {
  process_id = 42;
  seconds = [];
  signing = record { reply = timed_out; meanwhile = λ s. s };
  files = λ path. err (codes "not found");
  now = now;
}

abbrev connected_event : MeshCoreEvent
connected_event = record { event_type = EventType.connected; payload = EventPayload.nothing }

-- The broker answers, the mesh connects, an event arrives, and the connection is lost.
abbrev selects : List Select
selects =
    Select.conn_ack no_stats now
    ∷ Select.mesh_event (record { at_unix = pos 5; kind = MeshEventKind.connected }) no_stats now
    ∷ Select.raw_event connected_event now
    ∷ Select.poll_error (codes "connection reset")
    ∷ Select.heartbeat no_stats now
    ∷ []

-- The run: two status messages, retained, and the event.
run_runs :
    map
      (λ q. q.retain)
      (run_broker toy_formats toy_primitives broker start selects idle).1.published
    ≡ false ∷ true ∷ true ∷ []
unfolding run_broker new
run_runs = refl

abbrev model : DeviceInfoDto
model = record { model = codes "Heltec V3"; firmware_version = codes "v1.9" }

status_fields_report_example :
    let fields = status_fields toy_formats true sample_self_info (some model) none now in
    (get (codes "status") fields ≡ some (string (codes "online")))
    × IsReported true none (get (codes "stats") fields)
    × (get (codes "model") fields ≡ some (string (codes "Heltec V3")))
    × (get (codes "firmware_version") fields ≡ some (string (codes "v1.9")))
    × IsSubset
        (lwt_fields toy_formats (some sample_self_info) now)
        (status_fields toy_formats false sample_self_info (some model) none now)
unfolding status_fields get
status_fields_report_example =
    status_fields_report toy_formats sample_self_info now true (some model) none
