-- ===== src/Daemon/Mqtt/Worker/Published.antt =====
-- What a broker's worker publishes, from its start on.
use fez_meshcore_controller.Prelude.{List, [], ◌∷◌, ◌≡◌}
use fez_meshcore_controller.Core.Crypto.{Primitives}
use fez_meshcore_controller.Core.Config.{MqttBrokerConfig}
use fez_meshcore_controller.Daemon.Mqtt.{Formats}
use fez_meshcore_controller.Daemon.Mqtt.Publish.{Broker, Publish}
use fez_meshcore_controller.Daemon.Mqtt.Worker.{Select, select_round}
use fez_meshcore_controller.Daemon.Mqtt.Worker.Sound.{FromRound}

-- Nothing is published yet.
abbrev IsSilent : Broker → Type 0
IsSilent b = b.published ≡ []

module _ (f : Formats) (p : Primitives) (config : MqttBrokerConfig) where
  -- A message comes from a round of a sequence, which begins with the state that the rounds before
  -- it lead to.
  pub data Arises : List Select → Broker → Publish → Type 0 where
    this_round :
        {s : Select} {later : List Select} {c : Broker} {m : Publish}
        → FromRound f p config c s m
        → Arises (s ∷ later) c m
    next_rounds :
        {s : Select} {later : List Select} {c : Broker} {m : Publish}
        → Arises later (select_round f p config s c).1 m
        → Arises (s ∷ later) c m
