-- ===== src/Daemon/Mqtt/Events.antt =====
-- The topics and the JSON of decoded events of daemon/src/mqtt.rs.
pub mod Naming
use fez_meshcore_controller.Prelude.{
  Bool, Option, Text, [], codes, decimal, if◌then◌else◌, leb, map, map_option, none, some, take, ℕ,
  ◌&&◌, ◌++◌, ◌-◌, ◌∷◌,
}
use fez_meshcore_controller.Prelude.Int.{ℤ}
use fez_meshcore_controller.Core.Hex.{hex_encode}
use fez_meshcore_controller.Core.Json.{
  Value, null, boolean, number, integer, quotient, string, array, object, values, nullable, Fields,
  end, field,
}
use fez_meshcore_controller.Core.Mesh.Source.{
  EventType, EventPayload, MeshCoreEvent, Contact, TraceHop,
}
use fez_meshcore_controller.Daemon.Mqtt.{Formats}

-- What follows the prefix.
unfoldable pub topic_suffix : EventType → EventPayload → Option Text
unfolding hex_encode decimal
topic_suffix EventType.connected payload = some (codes "/events/connection")
topic_suffix EventType.disconnected payload = some (codes "/events/connection")
topic_suffix EventType.login_success payload = some (codes "/login")
topic_suffix EventType.login_failed payload = some (codes "/login")
topic_suffix EventType.device_info_received payload = some (codes "/device_info")
topic_suffix EventType.battery_received payload = some (codes "/battery")
topic_suffix EventType.new_contact payload = some (codes "/new_contact")
topic_suffix EventType.advertised payload = some (codes "/advertisement")
topic_suffix EventType.telemetry_response payload = some (codes "/telemetry")
topic_suffix EventType.contacts_received payload = some (codes "/contacts")
topic_suffix EventType.self_info_received payload = some (codes "/self_info")
topic_suffix EventType.channel_info_received payload = some (codes "/channel_info")
topic_suffix EventType.trace_received payload = some (codes "/traceroute/unknown")
topic_suffix EventType.contact_msg_recv (EventPayload.contact_message msg) =
    some (codes "/message/direct/" ++ hex_encode msg.sender_prefix)
topic_suffix EventType.channel_msg_recv (EventPayload.channel_message msg) =
    some (codes "/message/channel/" ++ decimal msg.channel_idx)
topic_suffix t payload = none

unfoldable pub topic_for : MeshCoreEvent → Text → Option Text
unfolding topic_suffix
topic_for event prefix =
    map_option (λ suffix. prefix ++ suffix) (topic_suffix event.event_type event.payload)

abbrev pub is_upper : ℕ → Bool
is_upper c = leb b'A' c && leb c b'Z'

abbrev pub to_upper : ℕ → ℕ
to_upper c = if leb b'a' c && leb c b'z' then c - 32 else c

-- The characters after the first, of an identifier: ASCII.
unfoldable pub screaming_rest : Text → Text
screaming_rest [] = []
screaming_rest (c ∷ name) =
    let rest = screaming_rest name in
    if is_upper c then b'_' ∷ to_upper c ∷ rest else to_upper c ∷ rest

unfoldable pub screaming_snake_case : Text → Text
unfolding screaming_rest
screaming_snake_case [] = []
screaming_snake_case (c ∷ name) = to_upper c ∷ screaming_rest name

abbrev pub hex : Text → Value
unfolding hex_encode
hex bytes = string (hex_encode bytes)

abbrev pub contact_fields : Formats → Contact → Fields → Fields
contact_fields f c rest =
    field (codes "public_key") (string (f.names.contact.public_key_hex c))
      (field (codes "adv_name") (string c.adv_name) rest)

abbrev pub position_fields : ℤ → ℤ → Fields
position_fields lat lon =
    field (codes "adv_lat") (quotient lat 1000000)
      (field (codes "adv_lon") (quotient lon 1000000) end)

abbrev pub hop_value : TraceHop → Value
unfolding hex_encode
hop_value hop =
    object (field (codes "hash") (hex hop.prefix) (field (codes "snr") (quotient hop.snr 4) end))

abbrev pub snr_value : Option ℤ → Value
snr_value snr = nullable (map_option (λ q. quotient q 4) snr)

-- The payload and the attributes.
unfoldable pub event_payload_json : Formats → EventPayload → Value × Fields
unfolding hex_encode
event_payload_json f (EventPayload.contact_message msg) = (
  object (
      field (codes "pubkey_prefix") (hex msg.sender_prefix) (
        field (codes "path_len") (number msg.path_len) (
          field (codes "txt_type") (number msg.txt_type) (
            field (codes "sender_timestamp") (number msg.sender_timestamp) (
              field (codes "text") (string msg.text)
                (field (codes "SNR") (snr_value msg.snr) end)))))),
  field (codes "pubkey_prefix") (hex msg.sender_prefix)
      (field (codes "txt_type") (number msg.txt_type) end),
)
event_payload_json f (EventPayload.channel_message msg) = (
  object (
      field (codes "channel_idx") (number msg.channel_idx) (
        field (codes "path_len") (number msg.path_len) (
          field (codes "txt_type") (number msg.txt_type) (
            field (codes "sender_timestamp") (number msg.sender_timestamp) (
              field (codes "text") (string msg.text)
                (field (codes "SNR") (snr_value msg.snr) end)))))),
  field (codes "channel_idx") (number msg.channel_idx)
      (field (codes "txt_type") (number msg.txt_type) end),
)
event_payload_json f (EventPayload.advertisement prefix name lat lon) =
    (object (field (codes "public_key") (hex prefix) end), end)
event_payload_json f (EventPayload.contact c) = (
  object (
      contact_fields f c
        (position_fields (f.names.contact.latitude c) (f.names.contact.longitude c))),
  end,
)
event_payload_json f (EventPayload.contacts cs) =
    (array (values (map (λ c. object (contact_fields f c end)) cs)), end)
event_payload_json f (EventPayload.device_info info) = (
  object (
      field (codes "fw ver") (number info.fw_version_code) (
        field (codes "max_contacts") (nullable (map_option number info.max_contacts)) (
          field (codes "max_channels") (nullable (map_option number info.max_channels)) (
            field (codes "ble_pin") (nullable (map_option number info.ble_pin)) (
              field (codes "fw_build") (nullable (map_option string info.fw_build)) (
                field (codes "model") (nullable (map_option string info.model)) (
                  field (codes "ver") (nullable (map_option string info.version))
                    (field (codes "repeat") (nullable (map_option boolean info.repeat)) end)))))))),
  end,
)
event_payload_json f (EventPayload.battery info) = (
  object (
      field (codes "level") (number info.battery_mv) (
        field (codes "used_kb") (nullable (map_option number info.used_kb))
          (field (codes "total_kb") (nullable (map_option number info.total_kb)) end))),
  end,
)
event_payload_json f (EventPayload.self_info info) = (
  object (
      field (codes "public_key") (hex info.public_key)
        (field (codes "name") (string info.name) (position_fields info.adv_lat info.adv_lon))),
  end,
)
event_payload_json f (EventPayload.channel_info info) = (
  object (
      field (codes "channel_idx") (number info.channel_idx) (
        field (codes "channel_name") (string info.name)
          (field (codes "channel_hash") (hex (take 1 info.secret)) end))),
  end,
)
event_payload_json f (EventPayload.trace_data hops) =
    (object (field (codes "path") (array (values (map hop_value hops))) end), end)
event_payload_json f (EventPayload.telemetry bytes) =
    (object (field (codes "lpp_data_hex") (hex bytes) end), end)
event_payload_json f EventPayload.nothing = (null, end)
event_payload_json f (EventPayload.string s) = (string s, end)
event_payload_json f other =
    (object (field (codes "debug") (string (f.debug_payload other)) end), end)

unfoldable pub payload_json : Formats → MeshCoreEvent → Value
unfolding screaming_snake_case event_payload_json
payload_json f event =
    let type_name =
      codes "EventType." ++ screaming_snake_case (f.names.event_name event.event_type) in
    let parts = event_payload_json f event.payload in
    object (
      field (codes "type") (string type_name)
        (field (codes "payload") parts.0 (field (codes "attributes") (object parts.1) end)))
