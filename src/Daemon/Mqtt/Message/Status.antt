-- ===== src/Daemon/Mqtt/Message/Status.antt =====
-- What the status message says, and the last will against it.
use fez_meshcore_controller.Prelude.{
  Bool, Bool-cases, Option, codes, false, inl, inr, is_some, map_option, none, refl, some, sym,
  true, ◌&&◌, ◌||◌, ◌∙◌, ◌≡◌,
}
use fez_meshcore_controller.Core.Json.{
  Value, number, integer, quotient, nullable, insert_all, string, object, Fields, end, field, get,
  insert_field,
}
use fez_meshcore_controller.Core.Mesh.{
  SelfInfoDto, DeviceInfoDto, NodeStatsDto, CoreStatsDto, RadioStatsDto, PacketStatsDto,
}
use fez_meshcore_controller.Daemon.Mqtt.{Formats, Instant}
use fez_meshcore_controller.Daemon.Mqtt.Message.{
  status_fields, stats_fields, status_of, has_fields, lwt_fields,
}

-- Each field of the first object is in the second.
abbrev pub IsSubset : Fields → Fields → Type 0
IsSubset end o = Unit
IsSubset (field k v rest) o = (get k o ≡ some v) × IsSubset rest o

-- The counters, each under its name, and the packets that were sent and received under two. The
-- counters of a group that the node did not give are not there.
abbrev pub IsStats :
    Option CoreStatsDto → Option RadioStatsDto → Option PacketStatsDto → Fields → Type 0
IsStats core radio packets fs =
    (get (codes "battery_mv") fs ≡ map_option (λ s. number s.battery_mv) core)
    × (get (codes "uptime_secs") fs ≡ map_option (λ s. number s.uptime_secs) core)
    × (get (codes "errors") fs ≡ map_option (λ s. number s.errors) core)
    × (get (codes "queue_len") fs ≡ map_option (λ s. number s.queue_len) core)
    × (get (codes "noise_floor") fs ≡ map_option (λ s. integer s.noise_floor) radio)
    × (get (codes "last_rssi") fs ≡ map_option (λ s. integer s.last_rssi) radio)
    × (get (codes "last_snr") fs ≡ map_option (λ s. quotient s.last_snr 4) radio)
    × (get (codes "tx_air_secs") fs ≡ map_option (λ s. number s.tx_air_secs) radio)
    × (get (codes "rx_air_secs") fs ≡ map_option (λ s. number s.rx_air_secs) radio)
    × (get (codes "recv") fs ≡ map_option (λ s. number s.recv) packets)
    × (get (codes "sent") fs ≡ map_option (λ s. number s.sent) packets)
    × (get (codes "flood_tx") fs ≡ map_option (λ s. number s.flood_tx) packets)
    × (get (codes "direct_tx") fs ≡ map_option (λ s. number s.direct_tx) packets)
    × (get (codes "flood_rx") fs ≡ map_option (λ s. number s.flood_rx) packets)
    × (get (codes "direct_rx") fs ≡ map_option (λ s. number s.direct_rx) packets)
    × (get (codes "recv_errors") fs
        ≡ map_option (λ s. nullable (map_option number s.recv_errors)) packets)
    × (get (codes "packets_sent") fs ≡ map_option (λ s. number s.sent) packets)
    × (get (codes "packets_received") fs ≡ map_option (λ s. number s.recv) packets)

abbrev pub any_group : NodeStatsDto → Bool
any_group stats = is_some stats.core || is_some stats.radio || is_some stats.packets

-- What is said of the counters: nothing while offline, and nothing when there are none.
pub data IsReported : Bool → Option NodeStatsDto → Option Value → Type 0 where
  offline : {stats : Option NodeStatsDto} → IsReported false stats none
  unknown : {online : Bool} → IsReported online none none
  empty : {stats : NodeStatsDto} → any_group stats ≡ false → IsReported true (some stats) none
  given :
      {stats : NodeStatsDto} {fs : Fields}
      → any_group stats ≡ true
      → IsStats stats.core stats.radio stats.packets fs
      → IsReported true (some stats) (some (object fs))

stats_fields-IsStats :
    (core : Option CoreStatsDto) (radio : Option RadioStatsDto) (packets : Option PacketStatsDto)
    → let stats : NodeStatsDto = record { core = core; radio = radio; packets = packets } in
      (has_fields (stats_fields stats) ≡ any_group stats)
      × IsStats core radio packets (stats_fields stats)
unfolding stats_fields get insert_field insert_all
stats_fields-IsStats none none none = (
  refl,
  (
    refl, refl, refl, refl, refl, refl, refl, refl, refl, refl, refl, refl, refl, refl, refl, refl,
    refl, refl,
  ),
)
stats_fields-IsStats none none (some k) = (
  refl,
  (
    refl, refl, refl, refl, refl, refl, refl, refl, refl, refl, refl, refl, refl, refl, refl, refl,
    refl, refl,
  ),
)
stats_fields-IsStats none (some r) none = (
  refl,
  (
    refl, refl, refl, refl, refl, refl, refl, refl, refl, refl, refl, refl, refl, refl, refl, refl,
    refl, refl,
  ),
)
stats_fields-IsStats none (some r) (some k) = (
  refl,
  (
    refl, refl, refl, refl, refl, refl, refl, refl, refl, refl, refl, refl, refl, refl, refl, refl,
    refl, refl,
  ),
)
stats_fields-IsStats (some c) none none = (
  refl,
  (
    refl, refl, refl, refl, refl, refl, refl, refl, refl, refl, refl, refl, refl, refl, refl, refl,
    refl, refl,
  ),
)
stats_fields-IsStats (some c) none (some k) = (
  refl,
  (
    refl, refl, refl, refl, refl, refl, refl, refl, refl, refl, refl, refl, refl, refl, refl, refl,
    refl, refl,
  ),
)
stats_fields-IsStats (some c) (some r) none = (
  refl,
  (
    refl, refl, refl, refl, refl, refl, refl, refl, refl, refl, refl, refl, refl, refl, refl, refl,
    refl, refl,
  ),
)
stats_fields-IsStats (some c) (some r) (some k) = (
  refl,
  (
    refl, refl, refl, refl, refl, refl, refl, refl, refl, refl, refl, refl, refl, refl, refl, refl,
    refl, refl,
  ),
)

module _ (f : Formats) (self_info : SelfInfoDto) (now : Instant) where
  lwt_fields-IsSubset :
      (device : Option DeviceInfoDto) (stats : Option NodeStatsDto)
      → IsSubset
          (lwt_fields f (some self_info) now)
          (status_fields f false self_info device stats now)
  unfolding lwt_fields status_fields insert_field get
  lwt_fields-IsSubset none none = (refl, (refl, (refl, (refl, tt))))
  lwt_fields-IsSubset none (some stats) = (refl, (refl, (refl, (refl, tt))))
  lwt_fields-IsSubset (some device) none = (refl, (refl, (refl, (refl, tt))))
  lwt_fields-IsSubset (some device) (some stats) = (refl, (refl, (refl, (refl, tt))))

  -- The status is online exactly while the mesh is connected and the device is known. The counters
  -- are given only then, if the node gave any: each of the core, the radio and the packets under
  -- its own name, and those of sent and received packets under two. The model and the firmware are
  -- given exactly if the device is known, connected or not. The last will for the same node and
  -- time is a part of the status message while the mesh is not connected.
  pub status_fields_report :
      (mesh_connected : Bool) (device : Option DeviceInfoDto) (stats : Option NodeStatsDto)
      → let fields = status_fields f mesh_connected self_info device stats now in
        let online = mesh_connected && is_some device in
        (get (codes "status") fields ≡ some (string (status_of online)))
        × IsReported online stats (get (codes "stats") fields)
        × (get (codes "model") fields ≡ map_option (λ d. string d.model) device)
        × (get (codes "firmware_version") fields
            ≡ map_option (λ d. string d.firmware_version) device)
        × IsSubset
            (lwt_fields f (some self_info) now)
            (status_fields f false self_info device stats now)
  unfolding status_fields insert_field get
  status_fields_report false none none = (refl, offline, refl, refl, lwt_fields-IsSubset none none)
  status_fields_report false none (some stats) =
      (refl, offline, refl, refl, lwt_fields-IsSubset none (some stats))
  status_fields_report false (some device) none =
      (refl, offline, refl, refl, lwt_fields-IsSubset (some device) none)
  status_fields_report false (some device) (some stats) =
      (refl, offline, refl, refl, lwt_fields-IsSubset (some device) (some stats))
  status_fields_report true none none = (refl, offline, refl, refl, lwt_fields-IsSubset none none)
  status_fields_report true none (some stats) =
      (refl, offline, refl, refl, lwt_fields-IsSubset none (some stats))
  status_fields_report true (some device) none =
      (refl, unknown, refl, refl, lwt_fields-IsSubset (some device) none)
  status_fields_report true (some device) (some stats) =
      let will = lwt_fields-IsSubset (some device) (some stats) in
      let counters = stats_fields-IsStats stats.core stats.radio stats.packets in
      elim (Bool-cases (has_fields (stats_fields stats))) [
        | inl e ↦ rw e (refl, given (sym counters.0 ∙ e) counters.1, refl, refl, will)
        | inr e ↦ rw e (refl, empty (sym counters.0 ∙ e), refl, refl, will)
      ]
