-- ===== src/Daemon/MeshTask/Companion.antt =====
-- The client of core/src/mesh.rs as what the mesh task calls.
use fez_meshcore_controller.Prelude.{All, Bool, List, Text, none, refl, some, ℕ, ◌∷◌, ◌≡◌}
use fez_meshcore_controller.Core.Config.{Config}
use fez_meshcore_controller.Core.Mesh.{DiscoveredNode}
use fez_meshcore_controller.Core.Mesh.Client
use fez_meshcore_controller.Core.Mesh.Client.{MeshCore, outcome_map}
use fez_meshcore_controller.Core.Mesh.Detail.{Outcome, ok}
use fez_meshcore_controller.Core.Mesh.Source.{ChannelInfo, Contact}
use fez_meshcore_controller.Core.Hex.{Bytes}
use fez_meshcore_controller.Core.Telemetry.{TelemetryReading}
use fez_meshcore_controller.Core.Telemetry.Fields.{Field, IsField, payload_bytes, all_readings}
use fez_meshcore_controller.Core.Telemetry.RoundTrip.{decode_telemetry-payload}
use fez_meshcore_controller.Daemon.MeshTask.Node.{Task, Channel, Outside, Mesh}
use fez_meshcore_controller.Daemon.MeshTask.Detail.{
  password_of, request_telemetry, find_repeater_password, telemetry_with, fetch_telemetry,
  logout_if, store_telemetry,
}

-- The configuration file, the database and the printing of numbers.
pub record Storage (W : Type 0) : Type 0 where
  pub uptime_secs : W → ℕ
  pub save_to : Config → Task W (Outcome (Unit {0}))
  pub persist : DiscoveredNode → Task W Bool
  pub reading_text : TelemetryReading → Text

abbrev channel_of : ChannelInfo → Channel
channel_of info = record { name = info.name; secret = info.secret }

abbrev pub outside_of : (m : MeshCore) → Storage m.World → Outside
outside_of m storage = record {
  World = m.World;
  now_unix = m.timestamp;
  uptime_secs = storage.uptime_secs;
  save_to = storage.save_to;
  persist = storage.persist;
  self_info = Client.self_info m;
  device_info = Client.device_info m;
  node_stats = Client.node_stats m;
  contacts = Client.contacts m;
  fetch_contacts = Client.fetch_contacts m;
  declare_contact = Client.declare_contact m;
  remove_contact = Client.remove_contact m;
  autoadd_enabled = Client.autoadd_enabled m;
  disable_auto_add_contacts = Client.disable_auto_add_contacts m;
  max_channels = Client.max_channels m;
  get_channel =
      λ i w. (outcome_map channel_of (Client.get_channel m i w).0, (Client.get_channel m i w).1);
  remove_channel = Client.remove_channel m;
  login = Client.login m;
  logout = Client.logout m;
  request_status = Client.request_status m;
  request_telemetry = Client.request_telemetry m;
  request_neighbours = Client.request_neighbours m;
  request_region_hierarchy = Client.request_region_hierarchy m;
  sign = Client.sign m;
  disconnect = Client.disconnect m;
  reading_text = storage.reading_text;
}

module _ (m : MeshCore) (storage : Storage m.World) (prefix : Text) (key : Bytes) (c : Contact)
    (fields : List Field) (padding : Bytes) where
  -- The world once the contact is found.
  abbrev found : m.World → m.World
  found w = (m.get_contact_by_prefix key w).1

  -- The node knows the contact, which answers a request for telemetry with the fields.
  abbrev pub AnswersFields : m.World → Type 0
  AnswersFields w =
      (m.hex.hex_decode prefix ≡ some key)
      × ((m.get_contact_by_prefix key w).0 ≡ some c)
      × ((m.request_telemetry c (found w)).0 ≡ ok (payload_bytes fields (0 ∷ 0 ∷ padding)))

  client_telemetry :
      (w : m.World)
      → All IsField fields
      → AnswersFields w
      → Client.request_telemetry m prefix w
        ≡ (ok (all_readings fields), (m.request_telemetry c (found w)).1)
  unfolding Client.request_telemetry Client.with_contact Client.resolve_contact
  client_telemetry w h (hex, known, raw) =
      rw (hex, known, raw, decode_telemetry-payload fields padding h) refl

  -- A telemetry request for a repeater without a configured password, whose contact the node knows
  -- and which answers with the encoding of fields of known types within their ranges, gives their
  -- readings in order, at the time of the answer.
  pub request_telemetry-payload :
      (s : Mesh (outside_of m storage))
      → password_of s.state.config.managed_repeaters prefix ≡ none
      → All IsField fields
      → AnswersFields s.world
      → (request_telemetry prefix s).0
        ≡ ok (record {
          fetched_at_unix = m.timestamp (m.request_telemetry c (found s.world)).1;
          readings = all_readings fields;
        })
  unfolding request_telemetry find_repeater_password telemetry_with fetch_telemetry logout_if
      store_telemetry
  request_telemetry-payload s unset h answers = rw (unset, client_telemetry s.world h answers) refl
