-- ===== src/Core/Mesh/Contacts.antt =====
-- The searches of core/src/mesh.rs over contacts and managed repeaters.
pub mod Pruning
use fez_meshcore_controller.Prelude.{
  Bool, List, Option, Text, any, eq_ignore_ascii_case, filter, find, map_option, not,
}
use fez_meshcore_controller.Core.Config.{RepeaterStatus, ManagedRepeater, matches}
use fez_meshcore_controller.Core.Mesh.{ContactDto}

unfoldable pub contacts_to_prune : List ContactDto → List ManagedRepeater → List ContactDto
contacts_to_prune contacts managed_repeaters =
    filter (λ c. not (any (λ r. matches r c.public_key_prefix_hex) managed_repeaters)) contacts

unfoldable pub matching_repeater_status : List ManagedRepeater → Text → Option RepeaterStatus
matching_repeater_status managed_repeaters public_key_prefix_hex =
    map_option (λ r. r.status) (find (λ r. matches r public_key_prefix_hex) managed_repeaters)

unfoldable pub is_registered_contact : List ContactDto → Text → Bool
unfolding eq_ignore_ascii_case
is_registered_contact contacts public_key_prefix_hex =
    any (λ c. eq_ignore_ascii_case c.public_key_prefix_hex public_key_prefix_hex) contacts
