-- ===== src/Daemon/Reload.antt =====
-- daemon/src/reload.rs: what a configuration on disk changes, and its live application.
pub mod Brokers
pub mod Restart
use fez_meshcore_controller.Prelude.{
  Bool, List, Option, Text, [], any, codes, decimal, eqb, filter, find, if◌then◌else◌, length, map,
  none, not, some, text_eq, ℕ, ◌++◌, ◌==◌, ◌∷◌,
}
use fez_meshcore_controller.Prelude.Int.{ℤ}
use fez_meshcore_controller.Prelude.Map.{HashMap, insert, remove}
use fez_meshcore_controller.Core.Config.{
  Config, DaemonConfig, MqttBrokerConfig, connection_text, ConnectionConfig-discrete,
  MqttBrokerConfig-discrete,
}
use fez_meshcore_controller.Core.Mesh.Events.{MeshEventKind, config_reloaded}
use fez_meshcore_controller.Core.Mesh.Detail.{Outcome, ok, err}
use fez_meshcore_controller.Core.Ipc.{MqttBrokerStatus}
use fez_meshcore_controller.Daemon.Command.{resync_observer_config}
use fez_meshcore_controller.Daemon.State.{AppState, broadcast_event}

pub record ConfigDiff : Type 0 where
  pub restart_required : List Text
  pub mqtt_added : List MqttBrokerConfig
  pub mqtt_removed : List Text
  pub mqtt_changed : List MqttBrokerConfig

-- "<field>: <old> -> <new>", if the field changed.
abbrev pub changed_field : Bool → Text → Text → Text → List Text
changed_field same field old new =
    if same then [] else (field ++ (codes ": " ++ (old ++ (codes " -> " ++ new)))) ∷ []

unfoldable pub changed_text : Text → Text → Text → List Text
changed_text field old new = changed_field (text_eq old new) field old new

unfoldable pub changed_number : Text → ℕ → ℕ → List Text
changed_number field old new = changed_field (old == new) field (decimal old) (decimal new)

unfoldable pub restart_fields : Config → Config → List Text
unfolding changed_text changed_number
restart_fields old new =
    changed_field (eqb ConnectionConfig-discrete old.connection new.connection) (codes "connection")
      (connection_text old.connection) (connection_text new.connection)
    ++ (changed_text (codes "daemon.socket_path") old.daemon.socket_path new.daemon.socket_path
        ++ (changed_number (codes "daemon.refresh_interval_secs") old.daemon.refresh_interval_secs
              new.daemon.refresh_interval_secs
            ++ (changed_text (codes "daemon.log_level") old.daemon.log_level new.daemon.log_level
                ++ (changed_text (codes "daemon.log_dir") old.daemon.log_dir new.daemon.log_dir
                    ++ (changed_number (codes "daemon.packet_log_capacity")
                          old.daemon.packet_log_capacity new.daemon.packet_log_capacity
                        ++ changed_text (codes "daemon.db_path") old.daemon.db_path
                            new.daemon.db_path)))))

-- The broker of a name.
unfoldable pub find_broker : Text → List MqttBrokerConfig → Option MqttBrokerConfig
find_broker name brokers = find (λ b. text_eq b.name name) brokers

-- The brokers of `new` that `old` lacks, and those that it has under their name but different.
unfoldable pub added_and_changed :
    List MqttBrokerConfig → List MqttBrokerConfig → List MqttBrokerConfig × List MqttBrokerConfig
added_and_changed old [] = ([], [])
added_and_changed old (broker ∷ brokers) =
    let (added, changed) = added_and_changed old brokers in
    elim (find_broker broker.name old) [
      | none ↦ (broker ∷ added, changed)
      | some old_broker ↦
          if eqb MqttBrokerConfig-discrete old_broker broker
          then (added, changed)
          else (added, broker ∷ changed)
    ]

unfoldable pub removed_names : List MqttBrokerConfig → List MqttBrokerConfig → List Text
removed_names old new =
    map (λ b. b.name) (filter (λ b. not (any (λ nb. text_eq nb.name b.name) new)) old)

unfoldable pub diff_config : Config → Config → ConfigDiff
diff_config old new =
    let brokers = added_and_changed old.mqtt_brokers new.mqtt_brokers in
    record {
      restart_required = restart_fields old new;
      mqtt_added = brokers.0;
      mqtt_removed = removed_names old.mqtt_brokers new.mqtt_brokers;
      mqtt_changed = brokers.1;
    }

-- The two loops over the worker tasks. To abort a task is to drop its handle.
unfoldable pub stop_brokers : AppState → List Text → AppState
stop_brokers s [] = s
stop_brokers s (name ∷ names) =
    stop_brokers
      (record s {
        mqtt_broker_tasks = remove name s.mqtt_broker_tasks;
        mqtt_broker_status = remove name s.mqtt_broker_status;
      })
      names

unfoldable pub start_brokers : AppState → List MqttBrokerConfig → AppState
start_brokers s [] = s
start_brokers s (broker ∷ brokers) =
    start_brokers
      (record s {
        mqtt_broker_tasks = insert broker.name broker (remove broker.name s.mqtt_broker_tasks);
      })
      brokers

resync : AppState → Bool → AppState
resync s wanted =
    if wanted then record s { commands_sent = resync_observer_config ∷ s.commands_sent } else s

pub summary_text : Config → ConfigDiff → Text
summary_text new diff =
    codes "managed_repeaters="
    ++ (decimal (length new.managed_repeaters)
        ++ (codes ", regions="
            ++ (decimal (length new.regions)
                ++ (codes ", hashtag_channels="
                    ++ (decimal (length new.hashtag_channels)
                        ++ (codes ", mqtt +"
                            ++ (decimal (length diff.mqtt_added)
                                ++ (codes "/-"
                                    ++ (decimal (length diff.mqtt_removed)
                                        ++ (codes "/~"
                                            ++ (decimal (length diff.mqtt_changed)
                                                ++ (codes ", observer_resynced="
                                                    ++ ((if new.daemon.observer_node_managed_config
                                                          then codes "true"
                                                          else codes "false")
                                                        ++ (codes ", restart_required="
                                                            ++ decimal (
                                                            length
                                                            diff.restart_required)))))))))))))))

-- `loaded` is the result of `Config::load_from`; an error keeps the running configuration.
unfoldable pub reload_once : AppState → Outcome Config → ℤ → AppState
unfolding resync diff_config
reload_once s (err reason) now_unix = s
reload_once s (ok new_config) now_unix =
    let diff = diff_config s.config new_config in
    let swapped = record s { config = new_config } in
    let stopped = stop_brokers swapped diff.mqtt_removed in
    let started = start_brokers stopped (diff.mqtt_changed ++ diff.mqtt_added) in
    let resynced = resync started new_config.daemon.observer_node_managed_config in
    broadcast_event resynced
      (record { at_unix = now_unix; kind = config_reloaded (summary_text new_config diff) })
