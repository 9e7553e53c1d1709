-- ===== src/Daemon/MeshTask/Detail.antt =====
-- The commands that ask a repeater for its data.
pub mod Categories
use fez_meshcore_controller.Prelude.{
  Bool, List, Option, Text, [], codes, eq_ignore_ascii_case, false, find, map, map_option, none,
  some, true, unwrap_or, ◌++◌, ◌∷◌,
}
use fez_meshcore_controller.Core.Config.{ManagedRepeater, matches}
use fez_meshcore_controller.Core.Telemetry.{TelemetryReading}
use fez_meshcore_controller.Core.Mesh.{ContactDto, TelemetryDto}
use fez_meshcore_controller.Core.Mesh.Contacts.{is_registered_contact}
use fez_meshcore_controller.Core.Mesh.Detail.{
  Outcome, ok, err, RepeaterDetailCategory, status, telemetry, neighbours, regions,
}
use fez_meshcore_controller.Core.Mesh.Events.{MeshEventKind}
use fez_meshcore_controller.Daemon.State.{AppState, set_telemetry}
use fez_meshcore_controller.Daemon.MeshTask.Node.{
  Task, ◌>>=◌, ◌>>◌, pure, when, and_then, Outside, Mesh, call, call_as, read, write, now, notify,
  send, Call, login_call, logout_call, is_ok,
}
use fez_meshcore_controller.Daemon.MeshTask.Contacts.{refresh_snapshot_contacts}

abbrev pub default_guest_password : Text
default_guest_password = codes ""

unfoldable pub password_of : List ManagedRepeater → Text → Option Text
unfolding matches
password_of repeaters prefix = elim (find (λ r. matches r prefix) repeaters) [
  | none ↦ none
  | some r ↦ r.password
]

-- The name of the contact, or the prefix when it is not among the contacts.
unfoldable pub contact_name : List ContactDto → Text → Text
unfolding eq_ignore_ascii_case
contact_name contacts prefix =
    unwrap_or
      (map_option (λ c. c.name)
        (find (λ c. eq_ignore_ascii_case c.public_key_prefix_hex prefix) contacts))
      prefix

-- `join(", ")`.
abbrev pub join_comma : List Text → Text
join_comma [] = []
join_comma (t ∷ []) = t
join_comma (t ∷ u ∷ ts) = t ++ (codes ", " ++ join_comma (u ∷ ts))

abbrev pub not_registered_text : Text
not_registered_text =
    codes
      "not registered as a contact on this node (only overheard on the mesh so far) -- press 'm' to register and manage it first"

abbrev pub reading_line : Outside → TelemetryReading → Text
reading_line o r = r.label ++ (codes ": " ++ (o.reading_text r ++ r.unit))

module _ {o : Outside} where
  unfoldable pub find_repeater_password : Text → Task (Mesh o) (Option Text)
  unfolding password_of
  find_repeater_password prefix = read (λ s. password_of s.config.managed_repeaters prefix)

  unfoldable pub finalize_telemetry_success : Text → TelemetryDto → Task (Mesh o) (Unit {0})
  unfolding set_telemetry refresh_snapshot_contacts contact_name notify
  finalize_telemetry_success prefix dto = do
    write (λ s. set_telemetry s prefix dto)
    refresh_snapshot_contacts
    name ← read (λ s. contact_name s.snapshot.contacts prefix)
    notify (
        MeshEventKind.telemetry_received name
          (join_comma (map (λ r. reading_line o r) dto.readings)))

  unfoldable pub login : Text → Text → Task (Mesh o) (Outcome (Unit {0}))
  login prefix password = call_as (λ r. login_call prefix (is_ok r)) (o.login prefix password)

  -- A logout that fails is only logged.
  unfoldable pub logout_if : Bool → Text → Task (Mesh o) (Unit {0})
  logout_if logged_in prefix =
      when logged_in (do r ← call_as (λ r. logout_call prefix) (o.logout prefix); pure tt)

  unfoldable pub store_telemetry :
      Text → Outcome (List TelemetryReading) → Task (Mesh o) (Outcome TelemetryDto)
  unfolding finalize_telemetry_success
  store_telemetry prefix (ok readings) = do
    at ← now
    finalize_telemetry_success prefix (record { fetched_at_unix = at; readings = readings })
    pure (ok (record { fetched_at_unix = at; readings = readings }))
  store_telemetry prefix (err reason) = pure (err reason)

  unfoldable pub fetch_telemetry : Text → Bool → Task (Mesh o) (Outcome TelemetryDto)
  unfolding logout_if store_telemetry
  fetch_telemetry prefix logged_in = do
    result ← call (o.request_telemetry prefix)
    logout_if logged_in prefix
    store_telemetry prefix result

  -- The outcome of the login decides, when there is a password.
  unfoldable pub telemetry_after_login :
      Text → Outcome (Unit {0}) → Task (Mesh o) (Outcome TelemetryDto)
  unfolding fetch_telemetry
  telemetry_after_login prefix (ok u) = fetch_telemetry prefix true
  telemetry_after_login prefix (err reason) = pure (err reason)

  unfoldable pub telemetry_with : Text → Option Text → Task (Mesh o) (Outcome TelemetryDto)
  unfolding login telemetry_after_login
  telemetry_with prefix none = fetch_telemetry prefix false
  telemetry_with prefix (some password) = do
    r ← login prefix password
    telemetry_after_login prefix r

  unfoldable pub request_telemetry : Text → Task (Mesh o) (Outcome TelemetryDto)
  unfolding find_repeater_password telemetry_with
  request_telemetry prefix = do
    password ← find_repeater_password prefix
    telemetry_with prefix password

  unfoldable pub send_failures : Text → Task (Mesh o) (Unit {0})
  unfolding send
  send_failures message =
      send (status (err message))
      >> send (telemetry (err message))
      >> send (neighbours (err message))
      >> send (regions (err message))

  unfoldable pub send_telemetry : Text → Outcome (List TelemetryReading) → Task (Mesh o) (Unit {0})
  unfolding finalize_telemetry_success send
  send_telemetry prefix (ok readings) = do
    at ← now
    finalize_telemetry_success prefix (record { fetched_at_unix = at; readings = readings })
    send (telemetry (ok (record { fetched_at_unix = at; readings = readings })))
  send_telemetry prefix (err reason) = send (telemetry (err reason))

  -- The four requests, and the logout.
  unfoldable pub fetch_categories : Bool → Text → Task (Mesh o) (Unit {0})
  unfolding send send_telemetry logout_if
  fetch_categories logged_in prefix = do
    status_result ← call (o.request_status prefix)
    send (status status_result)
    readings ← call (o.request_telemetry prefix)
    send_telemetry prefix readings
    neighbours_result ← call (o.request_neighbours prefix)
    send (neighbours neighbours_result)
    regions_result ← call (o.request_region_hierarchy prefix)
    send (regions regions_result)
    logout_if logged_in prefix

  -- The login with a configured password, which must succeed.
  unfoldable pub fetch_logged_in : Outcome (Unit {0}) → Text → Task (Mesh o) (Unit {0})
  unfolding fetch_categories send_failures
  fetch_logged_in (ok u) prefix = fetch_categories true prefix
  fetch_logged_in (err reason) prefix = send_failures (codes "login failed: " ++ reason)

  unfoldable pub fetch_detail : Option Text → Text → Task (Mesh o) (Unit {0})
  unfolding login fetch_logged_in fetch_categories
  fetch_detail (some password) prefix = do r ← login prefix password; fetch_logged_in r prefix
  fetch_detail none prefix = do
    r ← login prefix default_guest_password
    fetch_categories (is_ok r) prefix

  unfoldable pub detail_of_registered : Bool → Text → Task (Mesh o) (Unit {0})
  unfolding send_failures find_repeater_password fetch_detail
  detail_of_registered true prefix = do
    password ← find_repeater_password prefix
    fetch_detail password prefix
  detail_of_registered false prefix = send_failures not_registered_text

  unfoldable pub request_repeater_detail : Text → Task (Mesh o) (Unit {0})
  unfolding is_registered_contact detail_of_registered
  request_repeater_detail prefix = do
    contacts ← call o.contacts
    detail_of_registered (is_registered_contact contacts prefix) prefix
