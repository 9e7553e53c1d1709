-- ===== src/Daemon/State/Discovered.antt =====
-- The map of discovered nodes mirrors the database: what a restart would load is what is in memory.
use fez_meshcore_controller.Prelude.{
  All, Bool, List, Option, Text, [], arith, false, is_some, map_option, none, refl, some, sym,
  text_eq_iff, text_eq_refl, true, ◌==◌, ◌↔◌, ◌∙◌, ◌∷◌, ◌≡◌, ◌⊎◌,
}
use fez_meshcore_controller.Prelude.Int.{ℤ, pos, negsuc, is_zero}
use fez_meshcore_controller.Prelude.Map.{lookup, lookup-insert}
use fez_meshcore_controller.Core.Config.{Config}
use fez_meshcore_controller.Core.Mesh.{DiscoveredNode}
use fez_meshcore_controller.Daemon.RepeaterDb.{
  Row, Table, excluded, update_row, insert_row, upsert, node_of_row, load_all,
}
use fez_meshcore_controller.Daemon.RepeaterDb.Rows.{
  row_of, Distinct, IsKeyed, IsKeyedRow, loaded_row, stored_row, lookup-load_all, row_of-insert_row,
  insert_row-Distinct, insert_row-IsKeyed, row_of-prefix,
}
use fez_meshcore_controller.Daemon.State.{
  AppState, new, entry_after, merge_node, upsert_discovered_node,
}

-- A sighting as `extract_discovered_node` makes it, of a key that no other known key shares its
-- prefix with.
pub record IsSighting (key_of : Text → Text) (node : DiscoveredNode) : Type 0 where
  pub keyed : IsKeyed key_of node.public_key_hex node.public_key_prefix_hex
  pub repeater : node.is_repeater ≡ (node.adv_type == 2)

pub record IsCoherent (key_of : Text → Text) (s : AppState) : Type 0 where
  pub keyed : All (IsKeyedRow key_of) s.repeater_db
  pub distinct : Distinct s.repeater_db
  pub mirrored : (k : Text) → lookup k s.discovered_repeaters ≡ lookup k (load_all s.repeater_db)

zero_lem : (z : ℤ) → is_zero z ≡ true → z ≡ pos 0
zero_lem (pos n) h = ground arith
zero_lem (negsuc n) h = cc

-- A first sighting is loaded as it was.
loaded-excluded :
    (node : DiscoveredNode)
    → node.is_repeater ≡ (node.adv_type == 2)
    → node_of_row (excluded node) ≡ node
unfolding node_of_row excluded
loaded-excluded node h = ground (arith, zero_lem node.lat, zero_lem node.lon)

-- A row that is updated is loaded as the merged entry.
loaded-update_row :
    (r : Row) (node : DiscoveredNode)
    → node.is_repeater ≡ (node.adv_type == 2)
    → r.public_key_prefix_hex ≡ node.public_key_prefix_hex
    → r.public_key_hex ≡ node.public_key_hex
    → node_of_row (update_row r (excluded node)) ≡ merge_node (node_of_row r) node
unfolding node_of_row excluded update_row merge_node
loaded-update_row r node h p q = ground arith

-- The row that is stored is loaded as the entry of the map.
stored-entry :
    (key_of : Text → Text) (table : Table) (node : DiscoveredNode) (o : Option Row)
    → IsSighting key_of node
    → All (IsKeyedRow key_of) table
    → row_of node.public_key_prefix_hex table ≡ o
    → node_of_row (stored_row (excluded node) o) ≡ (entry_after (loaded_row o none) node).0
unfolding entry_after
stored-entry key_of table node none h rows e = loaded-excluded node h.repeater
stored-entry key_of table node (some r) h rows e =
    let (at_prefix, at_key) = row_of-prefix key_of node.public_key_prefix_hex table r rows e in
    loaded-update_row r node h.repeater at_prefix (at_key ∙ sym h.keyed.only)

-- Sightings, heard one after the other, each persisted.
pub hear_all : AppState → List DiscoveredNode → AppState
hear_all s [] = s
hear_all s (node ∷ nodes) = hear_all (upsert_discovered_node s node true).0 nodes

module _ (key_of : Text → Text) where
  mirrored_at :
      (s : AppState) (node : DiscoveredNode)
      → IsSighting key_of node
      → IsCoherent key_of s
      → Distinct (upsert s.repeater_db node)
      → (k : Text)
      → lookup k (upsert_discovered_node s node true).0.discovered_repeaters
        ≡ lookup k (load_all (upsert s.repeater_db node))
  unfolding upsert_discovered_node upsert excluded
  mirrored_at s node h c apart k =
      let p = node.public_key_prefix_hex in
      let table = s.repeater_db in
      let entry = entry_after (lookup p s.discovered_repeaters) node in
      ground (
        arith,
        lookup-insert p k entry.0 s.discovered_repeaters,
        lookup-load_all k (insert_row (excluded node) table) apart,
        row_of-insert_row key_of (excluded node) h.keyed k table c.keyed,
        c.mirrored k,
        c.mirrored p,
        lookup-load_all k table c.distinct,
        lookup-load_all p table c.distinct,
        stored-entry key_of table node (row_of p table) h c.keyed refl,
      )

  upsert_discovered_node-IsCoherent :
      (s : AppState) (node : DiscoveredNode)
      → IsSighting key_of node
      → IsCoherent key_of s
      → IsCoherent key_of (upsert_discovered_node s node true).0
  unfolding upsert_discovered_node upsert excluded
  upsert_discovered_node-IsCoherent s node h c =
      let p = node.public_key_prefix_hex in
      let table = s.repeater_db in
      let apart = insert_row-Distinct key_of (excluded node) h.keyed table c.keyed c.distinct in
      record {
        keyed = insert_row-IsKeyed key_of (excluded node) h.keyed table c.keyed;
        distinct = apart;
        mirrored = λ k. mirrored_at s node h c apart k;
      }

  hear_all-IsCoherent :
      (s : AppState) (nodes : List DiscoveredNode)
      → All (IsSighting key_of) nodes
      → IsCoherent key_of s
      → IsCoherent key_of (hear_all s nodes)
  unfolding hear_all
  hear_all-IsCoherent s [] h c = c
  hear_all-IsCoherent s (node ∷ nodes) h c =
      hear_all-IsCoherent (upsert_discovered_node s node true).0 nodes h.1
        (upsert_discovered_node-IsCoherent s node h.0 c)

-- After any sightings, each persisted, the map that a restart loads from the database has under
-- every prefix exactly the node that the running daemon has; the database is one whose rows have
-- distinct prefixes cut from their keys, and no two keys heard share a prefix.
pub restart_keeps :
    (key_of : Text → Text) (config : Config) (table : Table) (nodes : List DiscoveredNode)
    → All (IsKeyedRow key_of) table
    → Distinct table
    → All (IsSighting key_of) nodes
    → (k : Text)
    → let s = hear_all (new config table) nodes in
      lookup k (new config s.repeater_db).discovered_repeaters ≡ lookup k s.discovered_repeaters
unfolding new
restart_keeps key_of config table nodes rows distinct sightings k =
    let start : IsCoherent key_of (new config table) = record {
      keyed = rows;
      distinct = distinct;
      mirrored = λ j. refl;
    } in
    let coherent = hear_all-IsCoherent key_of (new config table) nodes sightings start in
    sym (coherent.mirrored k)

abbrev pub position_at : Text → AppState → Option (ℤ × ℤ)
position_at k s = map_option (λ n. (n.lat, n.lon)) (lookup k s.discovered_repeaters)

abbrev pub signal_at : Text → AppState → Option (Option ℤ)
signal_at k s = map_option (λ n. n.last_snr) (lookup k s.discovered_repeaters)

-- What a sighting does to the map, whether or not the database took it.
pub record IsMerged (s t : AppState) (node : DiscoveredNode) (is_new : Bool) : Type 0 where
  pub new_iff : (is_new ≡ true) ↔ (lookup node.public_key_prefix_hex s.discovered_repeaters ≡ none)
  pub others :
      (k : Text)
      → (k ≡ node.public_key_prefix_hex)
        ⊎ (lookup k t.discovered_repeaters ≡ lookup k s.discovered_repeaters)
  pub first :
      (is_new ≡ false) ⊎ (lookup node.public_key_prefix_hex t.discovered_repeaters ≡ some node)
  pub position_kept :
      (is_new ≡ true)
      ⊎ (is_zero node.lat ≡ false)
      ⊎ (is_zero node.lon ≡ false)
      ⊎ (position_at node.public_key_prefix_hex t ≡ position_at node.public_key_prefix_hex s)
  pub signal_kept :
      (is_new ≡ true)
      ⊎ (is_some node.last_snr ≡ true)
      ⊎ (signal_at node.public_key_prefix_hex t ≡ signal_at node.public_key_prefix_hex s)

-- A sighting is reported new exactly if its prefix was not in the map, which then holds it as it
-- is; no other prefix changes, and a sighting without a position or a signal-to-noise ratio keeps
-- the known one.
pub upsert_discovered_node-IsMerged :
    (s : AppState) (node : DiscoveredNode) (persisted : Bool)
    → let r = upsert_discovered_node s node persisted in IsMerged s r.0 node r.1
unfolding upsert_discovered_node
upsert_discovered_node-IsMerged s node persisted =
    let p = node.public_key_prefix_hex in
    let m = s.discovered_repeaters in
    let e = entry_after (lookup p m) node in
    record {
      new_iff = ground arith;
      others = λ k. ground (arith, lookup-insert p k e.0 m, text_eq_iff p k);
      first = ground (arith, lookup-insert p p e.0 m, text_eq_refl p);
      position_kept = ground (arith, lookup-insert p p e.0 m, text_eq_refl p);
      signal_kept = ground (arith, lookup-insert p p e.0 m, text_eq_refl p);
    }
