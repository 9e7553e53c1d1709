-- ===== src/Core/Config.antt =====
-- The configuration of core/src/config.rs. Paths are the texts that they are written as, and the
-- integers are within the widths of their Rust types.
use fez_meshcore_controller.Prelude.{
  Bool, List, Option, Text, codes, decimal, starts_with, to_ascii_lowercase, ℕ, ◌++◌,
}
use native.Mathlib.Decide.{ℕ_discrete}

pub record RegionConfig : Type 0 where
  pub name : Text
  pub parent : Option Text

pub data RepeaterStatus : Type 0 where
  managed known supervised : RepeaterStatus

pub record ManagedRepeater : Type 0 where
  pub name : Text
  pub public_key_hex : Text
  pub password : Option Text
  pub status : RepeaterStatus

-- Whether a contact's key prefix belongs to the repeater.
unfoldable pub matches : ManagedRepeater → Text → Bool
unfolding starts_with to_ascii_lowercase
matches r contact_public_key_prefix_hex =
    starts_with (to_ascii_lowercase r.public_key_hex)
      (to_ascii_lowercase contact_public_key_prefix_hex)

pub data ConnectionConfig : Type 0 where
  serial : Text → ℕ → ConnectionConfig
  tcp : Text → ℕ → ConnectionConfig
  ble : Text → ConnectionConfig

-- `Display` of the connection.
unfoldable pub connection_text : ConnectionConfig → Text
unfolding decimal
connection_text (serial port baud_rate) =
    codes "serial " ++ (port ++ (codes " @ " ++ (decimal baud_rate ++ codes " baud")))
connection_text (tcp host port) = codes "TCP " ++ (host ++ (codes ":" ++ decimal port))
connection_text (ble name) = codes "BLE \"" ++ (name ++ codes "\"")

pub data MqttTransportProtocol : Type 0 where
  tcp_transport websocket : MqttTransportProtocol

pub data MqttAuthMethod : Type 0 where
  passwd device anonymous : MqttAuthMethod

pub record MqttBrokerConfig : Type 0 where
  pub name : Text
  pub host : Text
  pub port : ℕ
  pub username : Option Text
  pub password : Option Text
  pub auth_method : MqttAuthMethod
  pub jwt_ttl_secs : ℕ
  pub jwt_audience : Option Text
  pub topic_prefix : Text
  pub tls_enabled : Bool
  pub tls_ca_cert : Option Text
  pub tls_client_cert : Option Text
  pub tls_client_key : Option Text
  pub status_refresh_interval_secs : ℕ
  pub enable_high_level_messages : Bool
  pub enable_packet_trafic_messages : Bool
  pub packet_trafic_topic : Text
  pub enable_raw_messages : Bool
  pub raw_topic : Text
  pub status_topic : Text
  pub transport_protocol : MqttTransportProtocol
  pub websocket_path : Text

pub record DaemonConfig : Type 0 where
  pub socket_path : Text
  pub refresh_interval_secs : ℕ
  pub log_level : Text
  pub log_dir : Text
  pub packet_log_capacity : ℕ
  pub db_path : Text
  pub observer_node_managed_config : Bool

pub record Config : Type 0 where
  pub node_label : Text
  pub connection : ConnectionConfig
  pub daemon : DaemonConfig
  pub managed_repeaters : List ManagedRepeater
  pub regions : List RegionConfig
  pub hashtag_channels : List Text
  pub mqtt_brokers : List MqttBrokerConfig

-- The derived equalities.
pub ConnectionConfig-discrete : Discrete ConnectionConfig
ConnectionConfig-discrete = hlevel ℕ_discrete

pub MqttBrokerConfig-discrete : Discrete MqttBrokerConfig
MqttBrokerConfig-discrete = hlevel ℕ_discrete
