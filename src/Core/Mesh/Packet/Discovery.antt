-- ===== src/Core/Mesh/Packet/Discovery.antt =====
-- What `extract_discovered_node` of core/src/mesh.rs takes from an advertisement.
use fez_meshcore_controller.Prelude.{
  ==_iff, bind-some, guard-some, refl, some, take, true, ◌>>=◌, ◌↔◌, ◌≡◌,
}
use mathlib.Core.Path.{subst}
use fez_meshcore_controller.Prelude.Int.{ℤ}
use fez_meshcore_controller.Core.Hex.{hex_encode}
use fez_meshcore_controller.Core.Mesh.{DiscoveredNode}
use fez_meshcore_controller.Core.Mesh.Source.{
  advert, PayloadType, MeshPacketHeader, RawAdvertisement, LogData, EventPayload, log_data,
  MeshCoreEvent,
}
use fez_meshcore_controller.Core.Mesh.Packet.{
  extract_discovered_node, discovered_node, logged_data, is_advert,
}

-- The event logs a packet of the advertisement type, and its advertisement was parsed.
pub record IsHeard (event : MeshCoreEvent) (log : LogData) (header : MeshPacketHeader)
    (adv : RawAdvertisement) : Type 0 where
  pub logged : event.payload ≡ log_data log
  pub headed : log.header ≡ some header
  pub typed : header.payload_type ≡ advert
  pub parsed : log.advertisement ≡ some adv

pub record IsShown (adv : RawAdvertisement) (now_unix : ℤ) (node : DiscoveredNode) : Type 0 where
  pub key : node.public_key_hex ≡ hex_encode adv.public_key
  pub prefix : node.public_key_prefix_hex ≡ take 12 node.public_key_hex
  pub repeater : (node.is_repeater ≡ true) ↔ (adv.adv_type ≡ 2)
  pub seen : node.last_seen_unix ≡ now_unix

discovered_node-IsShown :
    (log : LogData) (header : MeshPacketHeader) (adv : RawAdvertisement) (now_unix : ℤ)
    → IsShown adv now_unix (discovered_node log header adv now_unix)
unfolding discovered_node
discovered_node-IsShown log header adv now_unix = record {
  key = refl;
  prefix = refl;
  repeater = ==_iff adv.adv_type 2;
  seen = refl;
}

logged_data_iff :
    (payload : EventPayload) (log : LogData)
    → logged_data payload ≡ some log
    → payload ≡ log_data log
logged_data_iff (log_data l) log e = cc
logged_data_iff _ log e = cc

is_advert_iff : (t : PayloadType) → is_advert t ≡ true → t ≡ advert
is_advert_iff advert e = refl
is_advert_iff _ e = cc

-- A node is discovered only in a logged, parsed advertisement, and it has the advertisement's key,
-- the first 12 digits of the key as its prefix, and the repeater mark just for node type 2.
pub extract_discovered_node-IsHeard :
    (event : MeshCoreEvent) (now_unix : ℤ) (node : DiscoveredNode)
    → extract_discovered_node event now_unix ≡ some node
    → (log : LogData) × (header : MeshPacketHeader) × (adv : RawAdvertisement) × IsHeard event log
        header adv
      × IsShown adv now_unix node
unfolding extract_discovered_node
extract_discovered_node-IsHeard event now_unix node e =
    let (log, logged, e1) = bind-some _ _ _ e in
    let (header, headed, e2) = bind-some _ _ _ e1 in
    let parse = log.advertisement >>= λ adv. some (discovered_node log header adv now_unix) in
    let (typed, e3) = guard-some (is_advert header.payload_type) parse node e2 in
    let (adv, parsed, e4) = bind-some _ _ _ e3 in
    let same : discovered_node log header adv now_unix ≡ node = cc e4 in
    (
      log,
      header,
      adv,
      record {
        logged = logged_data_iff _ _ logged;
        headed = headed;
        typed = is_advert_iff header.payload_type typed;
        parsed = parsed;
      },
      subst (λ n. IsShown adv now_unix n) same (discovered_node-IsShown log header adv now_unix),
    )
