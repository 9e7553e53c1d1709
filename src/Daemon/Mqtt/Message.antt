-- ===== src/Daemon/Mqtt/Message.antt =====
-- The topics and the JSON of the status and of raw packets of daemon/src/mqtt.rs.
pub mod Status
use fez_meshcore_controller.Prelude.{
  Bool, Option, Text, codes, decimal, false, if◌then◌else◌, is_some, length, map_option, none, some,
  take, text_eq, true, unwrap_or, ℕ, ◌&&◌, ◌++◌, ◌+◌, ◌/◌, ◌>>=◌, ◌>>◌, ◌||◌, ◌∷◌,
}
use fez_meshcore_controller.Prelude.Int.{ℤ}
use fez_meshcore_controller.Core.Hex.{hex_encode}
use fez_meshcore_controller.Core.Crypto.{Primitives}
use fez_meshcore_controller.Core.Config.{MqttBrokerConfig}
use fez_meshcore_controller.Core.Json.{
  Value, null, number, integer, quotient, string, object, nullable, Fields, end, field,
  insert_field, insert_all,
}
use fez_meshcore_controller.Core.Mesh.{
  SelfInfoDto, DeviceInfoDto, CoreStatsDto, RadioStatsDto, PacketStatsDto, NodeStatsDto,
  PacketLogEntry, PacketHeaderInfo,
}
use fez_meshcore_controller.Core.Mesh.Packet.{reconstruct_raw_packet_hex}
use fez_meshcore_controller.Daemon.Mqtt.{Formats, Instant, replace}

-- The serialized form of the stats: three groups, in one object.
abbrev pub core_fields : Option CoreStatsDto → Fields
core_fields none = end
core_fields (some s) = field (codes "battery_mv") (number s.battery_mv) (
    field (codes "uptime_secs") (number s.uptime_secs) (
      field (codes "errors") (number s.errors)
        (field (codes "queue_len") (number s.queue_len) end)))

abbrev pub radio_fields : Option RadioStatsDto → Fields
radio_fields none = end
radio_fields (some s) = field (codes "noise_floor") (integer s.noise_floor) (
    field (codes "last_rssi") (integer s.last_rssi) (
      field (codes "last_snr") (quotient s.last_snr 4) (
        field (codes "tx_air_secs") (number s.tx_air_secs)
          (field (codes "rx_air_secs") (number s.rx_air_secs) end))))

abbrev pub packet_fields : Option PacketStatsDto → Fields
packet_fields none = end
packet_fields (some s) = field (codes "recv") (number s.recv) (
    field (codes "sent") (number s.sent) (
      field (codes "flood_tx") (number s.flood_tx) (
        field (codes "direct_tx") (number s.direct_tx) (
          field (codes "flood_rx") (number s.flood_rx) (
            field (codes "direct_rx") (number s.direct_rx)
              (field (codes "recv_errors") (nullable (map_option number s.recv_errors)) end))))))

-- The aliases of two counters.
abbrev pub alias_fields : Option PacketStatsDto → Fields
alias_fields none = end
alias_fields (some s) =
    field (codes "packets_sent") (number s.sent)
      (field (codes "packets_received") (number s.recv) end)

unfoldable pub stats_fields : NodeStatsDto → Fields
unfolding insert_all
stats_fields stats = insert_all (alias_fields stats.packets) (
    insert_all (packet_fields stats.packets)
      (insert_all (radio_fields stats.radio) (core_fields stats.core)))

abbrev pub has_fields : Fields → Bool
has_fields end = false
has_fields (field k v rest) = true

abbrev pub insert_device : Option DeviceInfoDto → Fields → Fields
unfolding insert_field
insert_device none fields = fields
insert_device (some d) fields =
    insert_field (codes "firmware_version") (string d.firmware_version)
      (insert_field (codes "model") (string d.model) fields)

abbrev pub insert_stats : Bool → Option NodeStatsDto → Fields → Fields
unfolding insert_field stats_fields
insert_stats online none fields = fields
insert_stats online (some stats) fields =
    if online && has_fields (stats_fields stats)
    then insert_field (codes "stats") (object (stats_fields stats)) fields
    else fields

abbrev pub status_of : Bool → Text
status_of true = codes "online"
status_of false = codes "offline"

abbrev pub route_of : PacketHeaderInfo → Text
unfolding text_eq decimal
route_of header =
    if text_eq header.route_type (codes "Direct")
      || text_eq header.route_type (codes "TransportDirect")
    then codes "direct"
    else decimal header.hops

-- The length of the packet on the air.
abbrev pub packet_len : PacketHeaderInfo → ℕ → ℕ
packet_len header payload_len =
    let transport_code_len = if is_some header.transport_code_hex then 4 else 0 in
    1 + transport_code_len + 1 + length header.path_hex / 2 + payload_len

module _ (f : Formats) where
  unfoldable pub origin_id : Option SelfInfoDto → Text
  origin_id none = codes "DEVICE"
  origin_id (some s) = f.encoders.to_uppercase s.public_key_hex

  unfoldable pub resolve_topic_template : Text → MqttBrokerConfig → SelfInfoDto → Text
  unfolding replace
  resolve_topic_template template config self_info =
      replace (replace template (codes "{prefix}") config.topic_prefix) (codes "{public_key}")
        (f.encoders.to_uppercase self_info.public_key_hex)

  unfoldable pub resolve_topic_template_best_effort :
      Text → MqttBrokerConfig → Option SelfInfoDto → Text
  unfolding replace origin_id
  resolve_topic_template_best_effort template config self_info =
      replace (replace template (codes "{prefix}") config.topic_prefix) (codes "{public_key}")
        (origin_id self_info)

  abbrev pub radio_text : SelfInfoDto → Text
  unfolding decimal
  radio_text s =
      f.format_thousandths s.radio_freq_mhz
      ++ (b',' ∷ f.format_thousandths s.radio_bw_khz
          ++ (b',' ∷ decimal s.spreading_factor ++ (b',' ∷ decimal s.coding_rate)))

  unfoldable pub status_fields :
      Bool → SelfInfoDto → Option DeviceInfoDto → Option NodeStatsDto → Instant → Fields
  unfolding insert_field stats_fields
  status_fields mesh_connected self_info device_info node_stats now =
      let online = mesh_connected && is_some device_info in
      let common = field (codes "status") (string (status_of online)) (
        field (codes "timestamp") (string (f.to_rfc3339 now)) (
          field (codes "origin") (string self_info.name) (
            field (codes "origin_id") (string (f.encoders.to_uppercase self_info.public_key_hex))
              end))) in
      insert_stats online node_stats (
        insert_field (codes "client_version") (string f.client_version) (
          insert_field (codes "radio") (string (radio_text self_info))
            (insert_device device_info common)))

  unfoldable pub status_message_json :
      Bool → SelfInfoDto → Option DeviceInfoDto → Option NodeStatsDto → Instant → Value
  unfolding status_fields
  status_message_json mesh_connected self_info device_info node_stats now =
      object (status_fields mesh_connected self_info device_info node_stats now)

  unfoldable pub lwt_fields : Option SelfInfoDto → Instant → Fields
  unfolding origin_id
  lwt_fields self_info now = field (codes "status") (string (codes "offline")) (
      field (codes "timestamp") (string (f.to_rfc3339 now)) (
        field (codes "origin")
          (string (unwrap_or (map_option (λ s. s.name) self_info) (codes "unknown")))
          (field (codes "origin_id") (string (origin_id self_info)) end)))

  unfoldable pub offline_lwt_payload : Option SelfInfoDto → Instant → Value
  unfolding lwt_fields
  offline_lwt_payload self_info now = object (lwt_fields self_info now)

  unfoldable pub packet_trafic_json :
      Primitives → PacketLogEntry → SelfInfoDto → Instant → Option Value
  unfolding reconstruct_raw_packet_hex hex_encode route_of
  packet_trafic_json p entry self_info now = do
    header ← entry.header
    whole ← reconstruct_raw_packet_hex entry
    let raw_hex = take 2048 whole
    let hash = hex_encode (take 8 (p.sha256 raw_hex))
    some (
        object (
          field (codes "origin") (string self_info.name) (
            field (codes "origin_id") (string (f.encoders.to_uppercase self_info.public_key_hex)) (
              field (codes "timestamp") (string (f.to_rfc3339 now)) (
                field (codes "type") (string (codes "PACKET")) (
                  field (codes "direction") (string (codes "rx")) (
                    field (codes "time") (string (f.format_time now)) (
                      field (codes "date") (string (f.format_date now)) (
                        field (codes "len") (number (packet_len header entry.payload_len)) (
                          field (codes "packet_type") (number header.payload_type_raw) (
                            field (codes "route") (string (route_of header)) (
                              field (codes "payload_len") (number entry.payload_len) (
                                field (codes "raw") (string raw_hex) (
                                  field (codes "SNR") (quotient entry.snr 4) (
                                    field (codes "RSSI") (integer entry.rssi)
                                      (field (codes "hash") (string hash) end))))))))))))))))

  unfoldable pub raw_json : PacketLogEntry → SelfInfoDto → Instant → Option Value
  unfolding reconstruct_raw_packet_hex
  raw_json entry self_info now = do
    raw_hex ← reconstruct_raw_packet_hex entry
    some (
        object (
          field (codes "origin") (string self_info.name) (
            field (codes "origin_id") (string (f.encoders.to_uppercase self_info.public_key_hex)) (
              field (codes "timestamp") (string (f.to_rfc3339 now)) (
                field (codes "type") (string (codes "RAW"))
                  (field (codes "data") (string (f.encoders.to_uppercase raw_hex)) end))))))
