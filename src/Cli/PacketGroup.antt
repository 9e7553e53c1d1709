-- ===== src/Cli/PacketGroup.antt =====
-- cli/src/tui/packet_group.rs: receptions of one transmission, grouped for the packet page.
pub mod Open
pub mod Chains
pub mod Partition
use fez_meshcore_controller.Prelude.{
  Bool, List, Option, Text, [], any, codes, drop, false, get_elem?, guard, if◌then◌else◌, leb,
  length, modify, none, not, reverse, some, starts_with, suc, take, to_ascii_lowercase, zero, ℕ,
  ◌%◌, ◌&&◌, ◌*◌, ◌++◌, ◌+◌, ◌==◌, ◌>>=◌, ◌>>◌, ◌||◌, ◌∷◌,
}
use fez_meshcore_controller.Prelude.Int.{ℤ, pos_part, neg_part}
use fez_meshcore_controller.Prelude.Map.{HashMap, lookup, insert}
use fez_meshcore_controller.Core.Mesh.{ContactDto, PacketHeaderInfo, PacketLogEntry}

abbrev pub group_window_secs : ℕ
group_window_secs = 90

-- `members` is newest first, and is never empty.
pub record PacketGroup : Type 0 where
  pub members : List PacketLogEntry

unfoldable pub latest : PacketGroup → Option PacketLogEntry
latest g = get_elem? g.members 0

unfoldable pub hash_matches_a_managed_repeater : Text → List ContactDto → Bool
unfolding to_ascii_lowercase starts_with
hash_matches_a_managed_repeater hash_hex contacts =
    any
      (λ c.
        c.managed
        && starts_with (to_ascii_lowercase c.public_key_prefix_hex) (to_ascii_lowercase hash_hex))
      contacts

-- `as_bytes().chunks(chunk_len)`, on fuel for each byte.
unfoldable pub chunks : ℕ → ℕ → Text → List Text
chunks zero chunk_len text = []
chunks (suc fuel) chunk_len [] = []
chunks (suc fuel) chunk_len (b ∷ text) =
    take chunk_len (b ∷ text) ∷ chunks fuel chunk_len (drop chunk_len (b ∷ text))

unfoldable pub path_hop_hashes : Text → ℕ → List Text
unfolding chunks
path_hop_hashes path_hex hash_size =
    let chunk_len = hash_size * 2 in
    if (chunk_len == 0) || not (length path_hex % chunk_len == 0)
    then []
    else chunks (length path_hex) chunk_len path_hex

abbrev pub opt_matches : List ContactDto → Option Text → Bool
opt_matches contacts none = false
opt_matches contacts (some hash) = hash_matches_a_managed_repeater hash contacts

unfoldable pub endpoint_is_managed_repeater : PacketGroup → List ContactDto → Bool
unfolding latest hash_matches_a_managed_repeater
endpoint_is_managed_repeater g contacts = elim (latest g >>= λ e. e.header) [
  | none ↦ false
  | some header ↦
      opt_matches contacts header.dest_hash_hex || opt_matches contacts header.src_hash_hex
]

abbrev entry_relayed : List ContactDto → PacketLogEntry → Bool
entry_relayed contacts member = elim member.header [
  | none ↦ false
  | some header ↦
      any (λ hop. hash_matches_a_managed_repeater hop contacts)
        (path_hop_hashes header.path_hex header.path_hash_size)
]

unfoldable pub relayed_by_managed_repeater : PacketGroup → List ContactDto → Bool
unfolding path_hop_hashes hash_matches_a_managed_repeater
relayed_by_managed_repeater g contacts = any (entry_relayed contacts) g.members

unfoldable pub group_key : PacketLogEntry → Option Text
group_key entry = do
  header ← entry.header
  some (header.payload_type ++ (codes ":" ++ entry.payload_hex))

pub record OpenGroup : Type 0 where
  pub index : ℕ
  pub last_at_unix : ℤ

-- The two locals of the loop.
pub record Grouping : Type 0 where
  pub groups : List PacketGroup
  pub open_groups : HashMap OpenGroup

-- `at_unix - last_at_unix <= group_window_secs`.
unfoldable pub within_window : ℤ → ℤ → Bool
within_window at_unix last_at_unix =
    leb (pos_part at_unix + neg_part last_at_unix)
      (pos_part last_at_unix + neg_part at_unix + group_window_secs)

unfoldable pub reused : Grouping → PacketLogEntry → Option (Text × OpenGroup)
unfolding group_key within_window lookup
reused g entry = do
  k ← group_key entry
  open_group ← lookup k g.open_groups
  guard (within_window entry.at_unix open_group.last_at_unix)
  some (k, open_group)

unfoldable pub add_member : PacketLogEntry → PacketGroup → PacketGroup
add_member entry g = record { members = entry ∷ g.members }

unfoldable pub open_new : Grouping → PacketLogEntry → HashMap OpenGroup
unfolding group_key insert
open_new g entry = elim (group_key entry) [
  | none ↦ g.open_groups
  | some k ↦
      insert k (record { index = length g.groups; last_at_unix = entry.at_unix }) g.open_groups
]

-- The body of the loop.
unfoldable pub group_entry : Grouping → PacketLogEntry → Grouping
unfolding reused add_member open_new insert
group_entry g entry = elim (reused g entry) [
  | some (k, open_group) ↦ record {
    groups = modify g.groups open_group.index (add_member entry);
    open_groups =
        insert k (record { index = open_group.index; last_at_unix = entry.at_unix }) g.open_groups;
  }
  | none ↦ record {
    groups = g.groups ++ record { members = entry ∷ [] } ∷ [];
    open_groups = open_new g entry;
  }
]

unfoldable pub group_all : Grouping → List PacketLogEntry → Grouping
unfolding group_entry
group_all g [] = g
group_all g (entry ∷ entries) = group_all (group_entry g entry) entries

unfoldable pub group_packets : List PacketLogEntry → List PacketGroup
unfolding group_all
group_packets packets =
    reverse (group_all (record { groups = []; open_groups = [] }) (reverse packets)).groups
