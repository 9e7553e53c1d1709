-- ===== src/Core/Mesh/Client.antt =====
-- `MeshClient` of core/src/mesh.rs, over the part of the crate meshcore-rs that it calls.
pub mod Replies
pub mod Declared
use fez_meshcore_controller.Prelude.{
  Bool, List, Option, Text, [], codes, decimal, if◌then◌else◌, length, map, map_option, none, not,
  replicate, some, suc, text_eq, zero, ℕ, ◌++◌, ◌+◌, ◌-◌, ◌==◌, ◌∷◌,
}
use fez_meshcore_controller.Prelude.Int.{ℤ, pos, negsuc}
use fez_meshcore_controller.Core.Hex.{Bytes, HexDecoder}
use fez_meshcore_controller.Core.Task.{Task, pure, ◌>>=◌, ◌>>◌, and_then, map_err}
use fez_meshcore_controller.Core.Telemetry.{TelemetryReading, decode_telemetry}
use fez_meshcore_controller.Core.Config.{ManagedRepeater}
use fez_meshcore_controller.Core.Mesh.{
  SelfInfoDto, DeviceInfoDto, NodeStatsDto, ContactDto, StatusDto, NeighboursDto,
  RegionHierarchyDto,
}
use fez_meshcore_controller.Core.Mesh.Detail.{Outcome, ok, err}
use fez_meshcore_controller.Core.Mesh.Conversions.{
  self_info_dto, device_info_dto, core_stats_dto, radio_stats_dto, packet_stats_dto,
  status_dto_from, neighbours_dto_from, contact_dto,
}
use fez_meshcore_controller.Core.Mesh.Regions.{parse_region_hierarchy}
use fez_meshcore_controller.Core.Mesh.Source.{
  Contact, ContactMethods, SelfInfo, DeviceInfoData, CoreStatsData, RadioStatsData, PacketStatsData,
  StatusData, NeighboursData, ChannelInfo, MeshCoreEvent, EventType, EventPayload, login_success,
  login_failed, contact_msg_recv, contact_message,
}

-- The calls, each a change of what is outside, and the clocks: `nanos` is that of the deadlines.
-- An error is its text. A timeout that is constant, and an argument that is always `None`, is left
-- out.
pub record MeshCore : Type 1 where
  pub World : Type 0
  pub contact : ContactMethods
  pub hex : HexDecoder
  pub hex_error : Text → Text
  pub channel_secret_len : ℕ
  pub nanos : World → ℕ
  pub timestamp : World → ℤ
  pub self_info : Task World (Option SelfInfo)
  pub contacts : Task World (List Contact)
  pub get_contact_by_prefix : Bytes → Task World (Option Contact)
  pub send_device_query : Task World (Outcome DeviceInfoData)
  pub get_core_stats : Task World (Outcome CoreStatsData)
  pub get_radio_stats : Task World (Outcome RadioStatsData)
  pub get_packet_stats : Task World (Outcome PacketStatsData)
  pub sign : Bytes → ℕ → Task World (Outcome Bytes)
  pub get_contacts : ℕ → Task World (Outcome (List Contact))
  pub remove_contact : Contact → Task World (Outcome (Unit {0}))
  pub add_contact : Contact → Task World (Outcome (Unit {0}))
  pub send_login : Contact → Text → Task World (Outcome (Unit {0}))
  pub send_logout : Contact → Task World (Outcome (Unit {0}))
  pub wait_for_any_event : List EventType → Task World (Outcome MeshCoreEvent)
  pub request_telemetry : Contact → Task World (Outcome Bytes)
  pub request_status : Contact → Task World (Outcome StatusData)
  -- count, offset, order_by, pubkey_prefix_length
  pub request_neighbours : Contact → ℕ → ℕ → ℕ → ℕ → Task World (Outcome NeighboursData)
  pub send_msg : Contact → Text → Task World (Outcome (Unit {0}))
  pub wait_for_event : EventType → ℕ → Task World (Option MeshCoreEvent)
  pub get_autoadd_config : Task World (Outcome ℕ)
  pub set_autoadd_config : ℕ → Task World (Outcome (Unit {0}))
  pub get_channel : ℕ → Task World (Outcome ChannelInfo)
  pub set_channel : ℕ → Text → Bytes → Task World (Outcome (Unit {0}))
  pub disconnect : Task World (Outcome (Unit {0}))

abbrev pub outcome_map : {A B : Type 0} → (A → B) → Outcome A → Outcome B
outcome_map f (ok a) = ok (f a)
outcome_map f (err reason) = err reason

abbrev pub to_option : {A : Type 0} → Outcome A → Option A
to_option (ok a) = some a
to_option (err reason) = none

abbrev pub max_channels_of : Outcome DeviceInfoData → Option ℕ
max_channels_of (ok info) = info.max_channels
max_channels_of (err reason) = none

-- `ok_or_else`.
abbrev pub ok_or : {A : Type 0} → Option A → Text → Outcome A
ok_or none reason = err reason
ok_or (some a) reason = ok a

-- `Error::Mesh`.
abbrev pub mesh_error : Text → Text
mesh_error reason = codes "MeshCore error: " ++ reason

abbrev pub rejected : Text → Text
rejected public_key_prefix_hex =
    codes "login to " ++ (public_key_prefix_hex ++ codes " was rejected (wrong password?)")

abbrev pub no_contact : Text → Text
no_contact public_key_prefix_hex = codes "no contact matches prefix " ++ public_key_prefix_hex

abbrev pub no_reply : Text → Text
no_reply public_key_prefix_hex =
    codes "no reply from "
    ++ (public_key_prefix_hex
        ++ codes " to the \"region\" command (wrong login role, or genuinely no response)")

abbrev pub short_key : Text → ℕ → Text
unfolding decimal
short_key name count =
    codes "managed repeater \""
    ++ (name
        ++ (codes "\" needs its full 32-byte public key to be declared (got "
            ++ (decimal count ++ codes " bytes)")))

abbrev pub outcome_of_login : Text → EventType → Outcome (Unit {0})
outcome_of_login public_key_prefix_hex login_success = ok tt
outcome_of_login public_key_prefix_hex t = err (rejected public_key_prefix_hex)

-- The text of a message from the contact with a prefix.
abbrev pub text_from : Bytes → EventPayload → Option Text
unfolding text_eq
text_from prefix (contact_message msg) =
    if text_eq msg.sender_prefix prefix then some msg.text else none
text_from prefix p = none

abbrev pub declared : Text → Bytes → Contact
declared name public_key = record {
  public_key = public_key;
  contact_type = 2;
  flags = 0;
  path_len = negsuc 0;
  out_path = [];
  adv_name = name;
  last_advert = 0;
  adv_lat = pos 0;
  adv_lon = pos 0;
  last_modification_timestamp = 0;
}

-- Nanoseconds.
abbrev pub reply_timeout : ℕ
reply_timeout = 15000000000

module _ (m : MeshCore) where
  -- A call whose error the client passes on.
  abbrev pub attempt : {A : Type 0} → Task m.World (Outcome A) → Task m.World (Outcome A)
  attempt call w = (map_err mesh_error (call w).0, (call w).1)

  abbrev pub map_ok : {A B : Type 0} → (A → B) → Task m.World (Outcome A) → Task m.World (Outcome B)
  map_ok f call w = (outcome_map f (call w).0, (call w).1)

  abbrev pub hex_decode : Text → Outcome Bytes
  hex_decode text = ok_or (m.hex.hex_decode text) (mesh_error (m.hex_error text))

  unfoldable pub self_info : Task m.World (Option SelfInfoDto)
  unfolding self_info_dto
  self_info w = (map_option self_info_dto (m.self_info w).0, (m.self_info w).1)

  unfoldable pub device_info : Task m.World (Option DeviceInfoDto)
  unfolding device_info_dto
  device_info = do info ← m.send_device_query; pure (map_option device_info_dto (to_option info))

  unfoldable pub max_channels : Task m.World (Option ℕ)
  max_channels = do info ← m.send_device_query; pure (max_channels_of info)

  unfoldable pub node_stats : Task m.World NodeStatsDto
  node_stats = do
    core ← m.get_core_stats
    radio ← m.get_radio_stats
    packets ← m.get_packet_stats
    pure (record {
      core = map_option core_stats_dto (to_option core);
      radio = map_option radio_stats_dto (to_option radio);
      packets = map_option packet_stats_dto (to_option packets);
    })

  unfoldable pub sign : Bytes → Task m.World (Outcome Bytes)
  sign bytes = attempt (m.sign bytes 128)

  unfoldable pub contacts : Task m.World (List ContactDto)
  unfolding contact_dto
  contacts = do known ← m.contacts; pure (map (contact_dto m.contact) known)

  unfoldable pub fetch_contacts : Task m.World (Outcome (List ContactDto))
  unfolding contact_dto
  fetch_contacts = map_ok (map (contact_dto m.contact)) (attempt (m.get_contacts 0))

  unfoldable pub resolve_contact : Text → Task m.World (Outcome Contact)
  resolve_contact public_key_prefix_hex = and_then (hex_decode public_key_prefix_hex) (λ prefix. do
    contact ← m.get_contact_by_prefix prefix
    pure (ok_or contact (no_contact public_key_prefix_hex)))

  unfoldable pub with_contact :
      {A : Type 0} → Text → (Contact → Task m.World (Outcome A)) → Task m.World (Outcome A)
  unfolding resolve_contact
  with_contact public_key_prefix_hex k = do
    contact ← resolve_contact public_key_prefix_hex
    and_then contact k

  unfoldable pub remove_contact : Text → Task m.World (Outcome (Unit {0}))
  unfolding with_contact
  remove_contact prefix_hex = with_contact prefix_hex (λ c. attempt (m.remove_contact c))

  unfoldable pub login : Text → Text → Task m.World (Outcome (Unit {0}))
  unfolding with_contact
  login prefix_hex password = with_contact prefix_hex (λ contact. do
    sent ← attempt (m.send_login contact password)
    and_then sent (λ u. do
      event ← attempt (m.wait_for_any_event (login_success ∷ login_failed ∷ []))
      and_then event (λ e. pure (outcome_of_login prefix_hex e.event_type))))

  unfoldable pub logout : Text → Task m.World (Outcome (Unit {0}))
  unfolding with_contact
  logout prefix_hex = with_contact prefix_hex (λ c. attempt (m.send_logout c))

  unfoldable pub request_telemetry : Text → Task m.World (Outcome (List TelemetryReading))
  unfolding with_contact decode_telemetry
  request_telemetry prefix_hex =
      with_contact prefix_hex (λ c. map_ok decode_telemetry (attempt (m.request_telemetry c)))

  unfoldable pub request_status : Text → Task m.World (Outcome StatusDto)
  unfolding with_contact status_dto_from
  request_status prefix_hex = with_contact prefix_hex (λ c. do
    status ← attempt (m.request_status c)
    now ← (λ w. (m.timestamp w, w))
    pure (outcome_map (λ s. status_dto_from s now) status))

  unfoldable pub request_neighbours : Text → Task m.World (Outcome NeighboursDto)
  unfolding with_contact neighbours_dto_from
  request_neighbours prefix_hex = with_contact prefix_hex (λ c. do
    heard ← attempt (m.request_neighbours c 32 0 0 6)
    now ← (λ w. (m.timestamp w, w))
    pure (outcome_map (λ n. neighbours_dto_from n now) heard))

  -- The loop until a deadline. It runs out of fuel with the error that it has at the deadline.
  unfoldable pub wait_for_reply : ℕ → Text → Contact → ℕ → Task m.World (Outcome RegionHierarchyDto)
  unfolding parse_region_hierarchy
  wait_for_reply zero prefix_hex contact deadline w = (err (no_reply prefix_hex), w)
  wait_for_reply (suc fuel) prefix_hex contact deadline w =
      let remaining = deadline - m.nanos w in
      let waited = m.wait_for_event contact_msg_recv remaining w in
      let later = wait_for_reply fuel prefix_hex contact deadline waited.1 in
      if remaining == 0 then (err (no_reply prefix_hex), w) else elim waited.0 [
        | none ↦ (err (no_reply prefix_hex), waited.1)
        | some e ↦ elim (text_from (m.contact.prefix contact) e.payload) [
          | none ↦ later
          | some t ↦ (ok (parse_region_hierarchy t (m.timestamp waited.1)), waited.1)
        ]
      ]

  -- The fuel is the time that is left.
  unfoldable pub wait_until : ℕ → Text → Contact → Task m.World (Outcome RegionHierarchyDto)
  unfolding wait_for_reply
  wait_until deadline prefix_hex contact w =
      wait_for_reply (suc (deadline - m.nanos w)) prefix_hex contact deadline w

  unfoldable pub request_region_hierarchy : Text → Task m.World (Outcome RegionHierarchyDto)
  unfolding with_contact wait_until
  request_region_hierarchy prefix_hex = with_contact prefix_hex (λ contact. do
    sent ← attempt (m.send_msg contact (codes "region"))
    and_then sent (λ u w. wait_until (m.nanos w + reply_timeout) prefix_hex contact w))

  unfoldable pub declare_contact : ManagedRepeater → Task m.World (Outcome (Unit {0}))
  declare_contact repeater = and_then (hex_decode repeater.public_key_hex) (λ key_bytes.
      if length key_bytes == 32
      then attempt (m.add_contact (declared repeater.name key_bytes))
      else pure (err (short_key repeater.name (length key_bytes))))

  unfoldable pub autoadd_enabled : Task m.World (Outcome Bool)
  autoadd_enabled = map_ok (λ c. not (c == 0)) (attempt m.get_autoadd_config)

  unfoldable pub disable_auto_add_contacts : Task m.World (Outcome (Unit {0}))
  disable_auto_add_contacts = attempt (m.set_autoadd_config 0)

  unfoldable pub get_channel : ℕ → Task m.World (Outcome ChannelInfo)
  get_channel channel_idx = attempt (m.get_channel channel_idx)

  unfoldable pub remove_channel : ℕ → Task m.World (Outcome (Unit {0}))
  remove_channel channel_idx =
      attempt (m.set_channel channel_idx [] (replicate m.channel_secret_len 0))

  unfoldable pub disconnect : Task m.World (Outcome (Unit {0}))
  disconnect = attempt m.disconnect
