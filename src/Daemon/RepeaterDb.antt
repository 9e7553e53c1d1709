-- ===== src/Daemon/RepeaterDb.antt =====
-- daemon/src/repeater_db.rs: the table `repeaters` and its two statements. The rows stand in the
-- order of their insertion; `public_key_hex` is the primary key.
pub mod Rows
use fez_meshcore_controller.Prelude.{
  List, Option, Text, [], if◌then◌else◌, none, or, some, text_eq, unwrap_or, ℕ, ◌&&◌, ◌+◌, ◌==◌,
  ◌∷◌,
}
use fez_meshcore_controller.Prelude.Int.{ℤ, pos, is_zero}
use fez_meshcore_controller.Prelude.Map.{HashMap, insert}
use fez_meshcore_controller.Core.Mesh.{DiscoveredNode}

pub record Row : Type 0 where
  pub public_key_hex : Text
  pub public_key_prefix_hex : Text
  pub name : Text
  pub adv_type : ℕ
  pub lat : Option ℤ
  pub lon : Option ℤ
  pub last_snr : Option ℤ
  pub last_rssi : Option ℤ
  pub last_hop_count : Option ℕ
  pub first_seen_unix : ℤ
  pub last_seen_unix : ℤ
  pub sighting_count : ℕ

abbrev pub Table : Type 0
Table = List Row

-- The position of a sighting: (0.0, 0.0) is stored as NULL.
unfoldable pub position_of : DiscoveredNode → Option ℤ × Option ℤ
position_of node =
    if is_zero node.lat && is_zero node.lon then (none, none) else (some node.lat, some node.lon)

-- The row that is inserted.
unfoldable pub excluded : DiscoveredNode → Row
unfolding position_of
excluded node = record {
  public_key_hex = node.public_key_hex;
  public_key_prefix_hex = node.public_key_prefix_hex;
  name = node.name;
  adv_type = node.adv_type;
  lat = (position_of node).0;
  lon = (position_of node).1;
  last_snr = node.last_snr;
  last_rssi = node.last_rssi;
  last_hop_count = node.last_hop_count;
  first_seen_unix = node.last_seen_unix;
  last_seen_unix = node.last_seen_unix;
  sighting_count = 1;
}

-- ON CONFLICT(public_key_hex) DO UPDATE SET …; COALESCE is `or`.
unfoldable pub update_row : Row → Row → Row
update_row old new = record {
  public_key_hex = old.public_key_hex;
  public_key_prefix_hex = new.public_key_prefix_hex;
  name = new.name;
  adv_type = new.adv_type;
  lat = or new.lat old.lat;
  lon = or new.lon old.lon;
  last_snr = or new.last_snr old.last_snr;
  last_rssi = or new.last_rssi old.last_rssi;
  last_hop_count = or new.last_hop_count old.last_hop_count;
  first_seen_unix = old.first_seen_unix;
  last_seen_unix = new.last_seen_unix;
  sighting_count = old.sighting_count + 1;
}

unfoldable pub insert_row : Row → Table → Table
insert_row new [] = new ∷ []
insert_row new (r ∷ rs) =
    if text_eq r.public_key_hex new.public_key_hex
    then update_row r new ∷ rs
    else r ∷ insert_row new rs

unfoldable pub upsert : Table → DiscoveredNode → Table
unfolding insert_row
upsert table node = insert_row (excluded node) table

unfoldable pub node_of_row : Row → DiscoveredNode
node_of_row row = record {
  name = row.name;
  public_key_hex = row.public_key_hex;
  public_key_prefix_hex = row.public_key_prefix_hex;
  is_repeater = row.adv_type == 2;
  adv_type = row.adv_type;
  lat = unwrap_or row.lat (pos 0);
  lon = unwrap_or row.lon (pos 0);
  last_seen_unix = row.last_seen_unix;
  last_snr = row.last_snr;
  last_rssi = row.last_rssi;
  last_hop_count = row.last_hop_count;
}

-- The rows, inserted one after the other.
unfoldable pub load_rows : HashMap DiscoveredNode → Table → HashMap DiscoveredNode
load_rows nodes [] = nodes
load_rows nodes (r ∷ rs) = load_rows (insert r.public_key_prefix_hex (node_of_row r) nodes) rs

unfoldable pub load_all : Table → HashMap DiscoveredNode
unfolding load_rows
load_all table = load_rows [] table
