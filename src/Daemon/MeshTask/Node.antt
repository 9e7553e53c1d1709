-- ===== src/Daemon/MeshTask/Node.antt =====
-- What the mesh task works on: the shared state, and what lies outside of the daemon, behind
-- `MeshClient` of core/src/mesh.rs, the clock, the configuration file and the database.
use fez_meshcore_controller.Prelude.{Bool, List, Option, Text, ℕ, ◌∷◌}
use fez_meshcore_controller.Prelude.Int.{ℤ}
pub use fez_meshcore_controller.Core.Task.{Task, pure, ◌>>=◌, ◌>>◌, when, and_then, map_err, is_ok}
use fez_meshcore_controller.Core.Hex.{Bytes}
use fez_meshcore_controller.Core.Telemetry.{TelemetryReading}
use fez_meshcore_controller.Core.Config.{Config, ManagedRepeater}
use fez_meshcore_controller.Core.Mesh.{
  SelfInfoDto, DeviceInfoDto, NodeStatsDto, ContactDto, DiscoveredNode, StatusDto, NeighboursDto,
  RegionHierarchyDto,
}
use fez_meshcore_controller.Core.Mesh.Detail.{Outcome, RepeaterDetailCategory}
use fez_meshcore_controller.Core.Mesh.Events.{MeshEventKind}
use fez_meshcore_controller.Daemon.State.{AppState, broadcast_event}

pub record Channel : Type 0 where
  pub name : Text
  pub secret : Bytes

-- The operations of the client that the task calls, each a change of what is outside. An error is
-- its text. `reading_text` prints the value of a reading.
pub record Outside : Type 1 where
  pub World : Type 0
  pub now_unix : World → ℤ
  pub uptime_secs : World → ℕ
  pub save_to : Config → Task World (Outcome (Unit {0}))
  pub persist : DiscoveredNode → Task World Bool
  pub self_info : Task World (Option SelfInfoDto)
  pub device_info : Task World (Option DeviceInfoDto)
  pub node_stats : Task World NodeStatsDto
  pub contacts : Task World (List ContactDto)
  pub fetch_contacts : Task World (Outcome (List ContactDto))
  pub declare_contact : ManagedRepeater → Task World (Outcome (Unit {0}))
  pub remove_contact : Text → Task World (Outcome (Unit {0}))
  pub autoadd_enabled : Task World (Outcome Bool)
  pub disable_auto_add_contacts : Task World (Outcome (Unit {0}))
  pub max_channels : Task World (Option ℕ)
  pub get_channel : ℕ → Task World (Outcome Channel)
  pub remove_channel : ℕ → Task World (Outcome (Unit {0}))
  -- public_key_prefix_hex, password
  pub login : Text → Text → Task World (Outcome (Unit {0}))
  pub logout : Text → Task World (Outcome (Unit {0}))
  pub request_status : Text → Task World (Outcome StatusDto)
  pub request_telemetry : Text → Task World (Outcome (List TelemetryReading))
  pub request_neighbours : Text → Task World (Outcome NeighboursDto)
  pub request_region_hierarchy : Text → Task World (Outcome RegionHierarchyDto)
  pub sign : Bytes → Task World (Outcome Bytes)
  pub disconnect : Task World (Outcome (Unit {0}))
  pub reading_text : TelemetryReading → Text

-- The calls of the node whose order or outcome the theorems speak of. A login has its outcome.
pub data Call : Type 0 where
  login_call : Text → Bool → Call
  logout_call remove_contact_call : Text → Call
  get_channel_call : ℕ → Call

module _ (o : Outside) where
  -- `calls` and `updates`, the categories of a detail that were sent, have the latest in front.
  pub record Mesh : Type 0 where
    pub world : o.World
    pub state : AppState
    pub calls : List Call
    pub updates : List RepeaterDetailCategory

module _ {o : Outside} where
  -- A call of what is outside.
  abbrev pub call : {A : Type 0} → Task o.World A → Task (Mesh o) A
  call m s = ((m s.world).0, record s { world = (m s.world).1 })

  -- A call that is kept in the list.
  abbrev pub call_as : {A : Type 0} → (A → Call) → Task o.World A → Task (Mesh o) A
  call_as c m s =
      ((m s.world).0, record s { world = (m s.world).1; calls = c (m s.world).0 ∷ s.calls })

  abbrev pub read : {A : Type 0} → (AppState → A) → Task (Mesh o) A
  read f s = (f s.state, s)

  abbrev pub write : (AppState → AppState) → Task (Mesh o) (Unit {0})
  write f s = (tt, record s { state = f s.state })

  abbrev pub now : Task (Mesh o) ℤ
  now s = (o.now_unix s.world, s)

  unfoldable pub notify : MeshEventKind → Task (Mesh o) (Unit {0})
  unfolding broadcast_event
  notify kind s = (
    tt,
    record s {
      state = broadcast_event s.state (record { at_unix = o.now_unix s.world; kind = kind });
    },
  )

  unfoldable pub send : RepeaterDetailCategory → Task (Mesh o) (Unit {0})
  send category s = (tt, record s { updates = category ∷ s.updates })
