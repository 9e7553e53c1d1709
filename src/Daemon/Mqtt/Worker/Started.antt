-- ===== src/Daemon/Mqtt/Worker/Started.antt =====
-- The status that a worker reports of its broker, from its start on.
use fez_meshcore_controller.Prelude.{Bool, false, ◌≡◌}
use fez_meshcore_controller.Core.Crypto.{Primitives}
use fez_meshcore_controller.Core.Config.{MqttBrokerConfig}
use fez_meshcore_controller.Daemon.Mqtt.{Formats}
use fez_meshcore_controller.Daemon.Mqtt.Publish.{Broker}
use fez_meshcore_controller.Daemon.Mqtt.Worker.Reported.{Reports}

-- Not connected yet.
abbrev IsOff : Broker → Type 0
IsOff b = b.mqtt_connected ≡ false

module _ (f : Formats) (p : Primitives) (config : MqttBrokerConfig) where
  -- A step of the start leaves the connection off, and reports it if the start ends there.
  abbrev IsPrepared : Bool × Broker → Type 0
  IsPrepared r = IsOff r.1 × (r.0 ≡ false → Reports f p config r.1)
