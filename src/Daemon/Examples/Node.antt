-- ===== src/Daemon/Examples/Node.antt =====
-- The theorems on the mesh task at concrete inputs.
use fez_meshcore_controller.Prelude.{
  [], ap, arith, codes, false, get_or, lower_code, none, refl, some, to_ascii_lowercase, true, ◌∷◌,
  ◌≡◌, ◌⊎◌,
}
use fez_meshcore_controller.Prelude.Int.{pos}
use fez_meshcore_controller.Samples.{sample_config, sample_repeater, toy_node}
use fez_meshcore_controller.Core.Config.{known, matches}
use fez_meshcore_controller.Core.Mesh.{DiscoveredNode}
use fez_meshcore_controller.Core.Mesh.Contacts.{matching_repeater_status}
use fez_meshcore_controller.Daemon.State.{new}
use fez_meshcore_controller.Daemon.MeshTask.Node.{Mesh}
use fez_meshcore_controller.Daemon.MeshTask.Contacts.{refresh_snapshot_contacts}
use fez_meshcore_controller.Daemon.MeshTask.Contacts.Annotated.{
  IsShown, answered, refresh_snapshot_contacts-AreAnnotated,
}
use fez_meshcore_controller.Daemon.MeshTask.Observer.{enforce_observer_node_config}
use fez_meshcore_controller.Daemon.MeshTask.Observer.Pruned.{
  Enforces, enforce_observer_node_config-Enforces,
}
use fez_meshcore_controller.Daemon.MeshTask.Repeaters.{upsert_managed_repeater_config}
use fez_meshcore_controller.Daemon.MeshTask.Repeaters.Config.{
  IsOther, FitsKey, entries_of, repeaters_of, upsert_managed_repeater_config_status,
}
use fez_meshcore_controller.Daemon.MeshTask.Detail.{request_repeater_detail}
use fez_meshcore_controller.Daemon.MeshTask.Detail.Categories.{
  SendsFour, IsLoggedOut, request_repeater_detail_sends,
}

abbrev node : DiscoveredNode
node = record {
  name = codes "Peak";
  public_key_hex = codes "0a0b0c0d0e0f0011";
  public_key_prefix_hex = codes "0a0b0c0d0e0f";
  is_repeater = true;
  adv_type = 2;
  lat = pos 45000000;
  lon = pos 2000000;
  last_seen_unix = pos 9;
  last_snr = none;
  last_rssi = none;
  last_hop_count = none;
}

abbrev started : Mesh toy_node
started = record {
  world = 0;
  state =
      record (new (record (sample_config 2 []) { managed_repeaters = sample_repeater ∷ [] }) []) {
        discovered_repeaters = (codes "0a0b0c0d0e0f", node) ∷ [];
      };
  calls = [];
  updates = [];
}

request_repeater_detail_sends_example :
    SendsFour [] (request_repeater_detail (codes "aabbccddeeff") started).1.updates
    × IsLoggedOut
        (codes "aabbccddeeff")
        []
        (request_repeater_detail (codes "aabbccddeeff") started).1.calls
request_repeater_detail_sends_example = request_repeater_detail_sends (codes "aabbccddeeff") started

enforce_observer_node_config-Enforces_example :
    ((started.state.config.daemon.observer_node_managed_config ≡ false)
      × ((enforce_observer_node_config started).1 ≡ started))
    ⊎ ((started.state.config.daemon.observer_node_managed_config ≡ true)
        × Enforces started (enforce_observer_node_config started).1)
enforce_observer_node_config-Enforces_example = enforce_observer_node_config-Enforces started

refresh_snapshot_contacts-AreAnnotated_example :
    IsShown started.state
      (answered (toy_node.fetch_contacts 0).0)
      (refresh_snapshot_contacts started).1.state.snapshot.contacts
refresh_snapshot_contacts-AreAnnotated_example = refresh_snapshot_contacts-AreAnnotated started

IsOther-prefix : IsOther (codes "aabbccddeeff") (codes "001122334455")
unfolding IsOther to_ascii_lowercase lower_code
IsOther-prefix = (refl, λ e. cc (ap (λ t. get_or t 0 0) e))

no_key : FitsKey (codes "aabbccddeeff") none
unfolding FitsKey
no_key = tt

one_entry : entries_of (codes "aabbccddeeff") (repeaters_of started) ≡ 1
unfolding matches new
one_entry = refl

upsert_managed_repeater_config_status_example :
    let after =
      (upsert_managed_repeater_config
        (codes "aabbccddeeff")
        (codes "Hill")
        (some known)
        none
        started).1 in
    (matching_repeater_status (repeaters_of after) (codes "aabbccddeeff") ≡ some known)
    × (matching_repeater_status (repeaters_of after) (codes "001122334455")
        ≡ matching_repeater_status (repeaters_of started) (codes "001122334455"))
upsert_managed_repeater_config_status_example =
    upsert_managed_repeater_config_status (codes "aabbccddeeff") (codes "Hill") (some known) none
      started (codes "001122334455") no_key IsOther-prefix (omega (arith, one_entry))
