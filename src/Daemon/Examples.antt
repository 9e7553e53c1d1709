-- ===== src/Daemon/Examples.antt =====
-- The theorems of the daemon at concrete inputs.
mod Node
mod Mqtt
mod Companion
use fez_meshcore_controller.Prelude.{
  List, Option, Text, [], codes, false, max, none, refl, reverse, some, take, text_eq, true, ℕ,
  ◌++◌, ◌∷◌, ◌≡◌,
}
use fez_meshcore_controller.Prelude.Int.{ℤ, pos}
use fez_meshcore_controller.Prelude.Map.{lookup}
use fez_meshcore_controller.Core.Config.{MqttBrokerConfig}
use fez_meshcore_controller.Core.Mesh.{DiscoveredNode, PacketLogEntry}
use fez_meshcore_controller.Core.Mesh.Detail.{ok}
use fez_meshcore_controller.Daemon.State.{AppState, new, upsert_discovered_node}
use fez_meshcore_controller.Daemon.State.Discovered.{
  hear_all, restart_keeps, IsMerged, upsert_discovered_node-IsMerged,
}
use fez_meshcore_controller.Daemon.State.PacketLog.{record_all, packet_log_holds_newest}
use fez_meshcore_controller.Daemon.Reload.{
  find_broker, added_and_changed, restart_fields, reload_once,
}
use fez_meshcore_controller.Daemon.Reload.Brokers.{
  mem-started, RunsBrokers, reload_once-RunsBrokers,
}
use fez_meshcore_controller.Daemon.Reload.Restart.{SameStartup, restart_fields-none}
use fez_meshcore_controller.Samples.{sample_broker, sample_config}

-- Keys whose last bytes are 00 11.
abbrev key_of : Text → Text
key_of prefix = prefix ++ codes "0011"

abbrev sighting : Text → ℤ → Option ℤ → DiscoveredNode
sighting prefix lat snr = record {
  name = codes "Peak";
  public_key_hex = key_of prefix;
  public_key_prefix_hex = prefix;
  is_repeater = true;
  adv_type = 2;
  lat = lat;
  lon = lat;
  last_seen_unix = pos 9;
  last_snr = snr;
  last_rssi = none;
  last_hop_count = none;
}

-- Two nodes, one of them heard again without its position and signal.
abbrev sightings : List DiscoveredNode
sightings =
    sighting (codes "aabbccddeeff") (pos 45000000) (some (pos 20))
    ∷ sighting (codes "001122334455") (pos 46000000) none
    ∷ sighting (codes "aabbccddeeff") (pos 0) none
    ∷ []

restart_keeps_example :
    let s = hear_all (new (sample_config 2 []) []) sightings in
    lookup (codes "aabbccddeeff") (new (sample_config 2 []) s.repeater_db).discovered_repeaters
    ≡ lookup (codes "aabbccddeeff") s.discovered_repeaters
restart_keeps_example =
    restart_keeps key_of (sample_config 2 []) [] sightings tt tt
      (
        (record { keyed = record { cut = refl; only = refl }; repeater = refl }),
        (
          (record { keyed = record { cut = refl; only = refl }; repeater = refl }),
          ((record { keyed = record { cut = refl; only = refl }; repeater = refl }), tt),
        ),
      )
      (codes "aabbccddeeff")

abbrev one_node : AppState
one_node =
    (upsert_discovered_node (new (sample_config 2 []) [])
      (sighting (codes "aabbccddeeff") (pos 45000000) none) true).0

upsert_discovered_node-IsMerged_example :
    let r = upsert_discovered_node one_node (sighting (codes "aabbccddeeff") (pos 0) none) false in
    IsMerged one_node r.0 (sighting (codes "aabbccddeeff") (pos 0) none) r.1
upsert_discovered_node-IsMerged_example =
    upsert_discovered_node-IsMerged one_node (sighting (codes "aabbccddeeff") (pos 0) none) false

abbrev packet : ℕ → PacketLogEntry
packet id = record {
  id = id;
  at_unix = pos id;
  snr = pos 0;
  rssi = pos 0;
  header = none;
  payload_hex = [];
  payload_len = 0;
}

packet_log_holds_newest_example :
    (record_all (new (sample_config 2 []) []) (packet 1 ∷ packet 2 ∷ packet 3 ∷ [])).packet_log
    ≡ take (max 2 1) (reverse (packet 1 ∷ packet 2 ∷ packet 3 ∷ []))
packet_log_holds_newest_example =
    packet_log_holds_newest (sample_config 2 []) [] (packet 1 ∷ packet 2 ∷ packet 3 ∷ [])

-- One broker stays, one moves to another port, one goes and one comes.
abbrev old_brokers : List MqttBrokerConfig
old_brokers =
    sample_broker (codes "a") 1883
    ∷ sample_broker (codes "b") 1883
    ∷ sample_broker (codes "c") 1883
    ∷ []

abbrev new_brokers : List MqttBrokerConfig
new_brokers =
    sample_broker (codes "a") 1883
    ∷ sample_broker (codes "b") 8883
    ∷ sample_broker (codes "d") 1883
    ∷ []

-- The daemon that runs the old brokers.
abbrev running : AppState
running = record (new (sample_config 2 old_brokers) []) {
  mqtt_broker_tasks =
      (codes "a", sample_broker (codes "a") 1883)
      ∷ (codes "b", sample_broker (codes "b") 1883)
      ∷ (codes "c", sample_broker (codes "c") 1883)
      ∷ [];
}

runs_old : RunsBrokers running old_brokers
unfolding lookup find_broker
runs_old name = refl

reload_once-RunsBrokers_example :
    RunsBrokers (reload_once running (ok (sample_config 2 new_brokers)) (pos 9)) new_brokers
unfolding new
reload_once-RunsBrokers_example =
    reload_once-RunsBrokers running (sample_config 2 new_brokers) (pos 9) runs_old
      (unfold find_broker text_eq in (refl, (refl, (refl, tt))))
