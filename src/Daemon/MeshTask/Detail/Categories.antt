-- ===== src/Daemon/MeshTask/Detail/Categories.antt =====
-- What a detail request sends, and which calls it makes, on every branch.
use fez_meshcore_controller.Prelude.{
  Bool, List, Option, Text, [], ap, false, if◌then◌else◌, inl, inr, none, refl, some, true, ◌++◌,
  ◌∙◌, ◌∷◌, ◌≡◌, ◌⊎◌,
}
use fez_meshcore_controller.Core.Mesh.{
  ContactDto, StatusDto, TelemetryDto, NeighboursDto, RegionHierarchyDto,
}
use fez_meshcore_controller.Core.Mesh.Contacts.{is_registered_contact}
use fez_meshcore_controller.Core.Telemetry.{TelemetryReading}
use fez_meshcore_controller.Core.Mesh.Detail.{
  Outcome, ok, err, RepeaterDetailCategory, status, telemetry, neighbours, regions,
}
use fez_meshcore_controller.Daemon.MeshTask.Node.{
  is_ok, Outside, Mesh, Call, notify, send, login_call, logout_call,
}
use fez_meshcore_controller.Daemon.MeshTask.Contacts.{
  contacts_or_cached, build_snapshot_contacts, refresh_snapshot_contacts,
}
use fez_meshcore_controller.Daemon.MeshTask.Detail.{
  finalize_telemetry_success, send_failures, send_telemetry, logout_if, fetch_categories,
  fetch_logged_in, fetch_detail, detail_of_registered, request_repeater_detail, login,
  request_telemetry, find_repeater_password, store_telemetry, fetch_telemetry,
  telemetry_after_login, telemetry_with,
}

-- The four categories in the order that they are asked for, the last in front.
abbrev pub four :
    Outcome StatusDto
    → Outcome TelemetryDto
    → Outcome NeighboursDto
    → Outcome RegionHierarchyDto
    → List RepeaterDetailCategory
four s t n r = regions r ∷ neighbours n ∷ telemetry t ∷ status s ∷ []

-- One of each category, in order, was sent after what was sent before.
abbrev pub SendsFour : List RepeaterDetailCategory → List RepeaterDetailCategory → Type 0
SendsFour before after =
    (s : Outcome StatusDto) × (t : Outcome TelemetryDto) × (n : Outcome NeighboursDto)
    × (r : Outcome RegionHierarchyDto) × (after ≡ four s t n r ++ before)

-- No login, a login that failed, or a login that a logout of the same repeater follows.
abbrev pub IsLoggedOut : Text → List Call → List Call → Type 0
IsLoggedOut prefix before after =
    (after ≡ before)
    ⊎ (after ≡ login_call prefix false ∷ before)
    ⊎ (after ≡ logout_call prefix ∷ login_call prefix true ∷ before)

module _ {o : Outside} where
  abbrev Keeps : Mesh o → Mesh o → Type 0
  Keeps s s' = (s'.updates ≡ s.updates) × (s'.calls ≡ s.calls)

  contacts_or_cached-Keeps :
      (r : Outcome (List ContactDto)) (s : Mesh o) → Keeps s (contacts_or_cached r s).1
  unfolding contacts_or_cached
  contacts_or_cached-Keeps (ok contacts) s = (refl, refl)
  contacts_or_cached-Keeps (err reason) s = (refl, refl)

  pub refresh-Keeps : (s : Mesh o) → Keeps s (refresh_snapshot_contacts s).1
  unfolding refresh_snapshot_contacts build_snapshot_contacts
  refresh-Keeps s = contacts_or_cached-Keeps _ _

  finalize-Keeps :
      (prefix : Text) (dto : TelemetryDto) (s : Mesh o)
      → Keeps s (finalize_telemetry_success prefix dto s).1
  unfolding finalize_telemetry_success notify
  finalize-Keeps prefix dto s = refresh-Keeps _

  telemetry_sent :
      (prefix : Text) (r : Outcome (List TelemetryReading)) (s : Mesh o)
      → (t : Outcome TelemetryDto) × ((send_telemetry prefix r s).1.updates
          ≡ telemetry t ∷ s.updates)
        × ((send_telemetry prefix r s).1.calls ≡ s.calls)
  unfolding send_telemetry send
  telemetry_sent prefix (ok readings) s =
      let dto : TelemetryDto = record {
        fetched_at_unix = o.now_unix s.world;
        readings = readings;
      } in
      let kept = finalize-Keeps prefix dto s in
      (ok dto, ap (λ u. telemetry (ok dto) ∷ u) kept.0, kept.1)
  telemetry_sent prefix (err reason) s = (err reason, refl, refl)

  logout_if-calls :
      (b : Bool) (prefix : Text) (s : Mesh o)
      → ((logout_if b prefix s).1.updates ≡ s.updates)
        × ((logout_if b prefix s).1.calls ≡ (if b then logout_call prefix ∷ s.calls else s.calls))
  unfolding logout_if
  logout_if-calls true prefix s = (refl, refl)
  logout_if-calls false prefix s = (refl, refl)

  -- What the four requests send and call.
  abbrev Fetches : Bool → Text → Mesh o → Mesh o → Type 0
  Fetches b prefix s s' =
      SendsFour s.updates s'.updates
      × (s'.calls ≡ (if b then logout_call prefix ∷ s.calls else s.calls))

  fetch_categories-Fetches :
      (b : Bool) (prefix : Text) (s : Mesh o) → Fetches b prefix s (fetch_categories b prefix s).1
  unfolding fetch_categories send
  fetch_categories-Fetches b prefix s =
      let asked = o.request_status prefix s.world in
      let s₁ : Mesh o = record s { world = asked.1; updates = status asked.0 ∷ s.updates } in
      let read = o.request_telemetry prefix s₁.world in
      let s₂ : Mesh o = record s₁ { world = read.1 } in
      let sent = telemetry_sent prefix read.0 s₂ in
      let s₃ = (send_telemetry prefix read.0 s₂).1 in
      let near = o.request_neighbours prefix s₃.world in
      let named = o.request_region_hierarchy prefix near.1 in
      let out = logout_if-calls b prefix (record s₃ {
        world = named.1;
        updates = regions named.0 ∷ neighbours near.0 ∷ s₃.updates;
      }) in
      (
        (
          asked.0,
          sent.0,
          near.0,
          named.0,
          out.0 ∙ ap (λ u. regions named.0 ∷ neighbours near.0 ∷ u) sent.1,
        ),
        out.1 ∙ ap (λ c. if b then logout_call prefix ∷ c else c) sent.2,
      )

  abbrev Effects : Text → List RepeaterDetailCategory → List Call → Mesh o → Type 0
  Effects prefix updates calls s' = SendsFour updates s'.updates × IsLoggedOut prefix calls s'.calls

  failures-Effects :
      (prefix message : Text) (calls : List Call) (s : Mesh o)
      → IsLoggedOut prefix calls s.calls
      → Effects prefix s.updates calls (send_failures message s).1
  unfolding send_failures send
  failures-Effects prefix message calls s h =
      ((err message, err message, err message, err message, refl), h)

  fetch-Effects :
      (b : Bool) (prefix : Text) (calls : List Call) (s : Mesh o)
      → s.calls ≡ login_call prefix b ∷ calls
      → Effects prefix s.updates calls (fetch_categories b prefix s).1
  fetch-Effects true prefix calls s h =
      let run = fetch_categories-Fetches true prefix s in
      (run.0, inr (inr (run.1 ∙ ap (λ c. logout_call prefix ∷ c) h)))
  fetch-Effects false prefix calls s h =
      let run = fetch_categories-Fetches false prefix s in (run.0, inr (inl (run.1 ∙ h)))

  logged_in-Effects :
      (r : Outcome (Unit {0})) (prefix : Text) (calls : List Call) (s : Mesh o)
      → s.calls ≡ login_call prefix (is_ok r) ∷ calls
      → Effects prefix s.updates calls (fetch_logged_in r prefix s).1
  unfolding fetch_logged_in
  logged_in-Effects (ok u) prefix calls s h = fetch-Effects true prefix calls s h
  logged_in-Effects (err reason) prefix calls s h = failures-Effects prefix _ calls s (inr (inl h))

  detail-Effects :
      (password : Option Text) (prefix : Text) (s : Mesh o)
      → Effects prefix s.updates s.calls (fetch_detail password prefix s).1
  unfolding fetch_detail login
  detail-Effects (some password) prefix s = logged_in-Effects _ prefix s.calls _ refl
  detail-Effects none prefix s = fetch-Effects _ prefix s.calls _ refl

  registered-Effects :
      (b : Bool) (prefix : Text) (s : Mesh o)
      → Effects prefix s.updates s.calls (detail_of_registered b prefix s).1
  unfolding detail_of_registered find_repeater_password
  registered-Effects true prefix s = detail-Effects _ prefix s
  registered-Effects false prefix s = failures-Effects prefix _ s.calls s (inl refl)

  -- A detail request sends exactly one status, one telemetry, one neighbours and one regions
  -- category, in this order, whatever the node answers: also when the repeater is not registered,
  -- a login fails or a request does. It logs in at most once, and logs out exactly if that login
  -- succeeded.
  pub request_repeater_detail_sends :
      (prefix : Text) (s : Mesh o)
      → SendsFour s.updates (request_repeater_detail prefix s).1.updates
        × IsLoggedOut prefix s.calls (request_repeater_detail prefix s).1.calls
  unfolding request_repeater_detail
  request_repeater_detail_sends prefix s =
      registered-Effects (is_registered_contact (o.contacts s.world).0 prefix) prefix
        (record s { world = (o.contacts s.world).1 })

  store-calls :
      (r : Outcome (List TelemetryReading)) (prefix : Text) (s : Mesh o)
      → (store_telemetry prefix r s).1.calls ≡ s.calls
  unfolding store_telemetry
  store-calls (ok readings) prefix s = (finalize-Keeps prefix _ s).1
  store-calls (err reason) prefix s = refl

  fetch_telemetry-calls :
      (b : Bool) (prefix : Text) (s : Mesh o)
      → (fetch_telemetry prefix b s).1.calls ≡ (if b then logout_call prefix ∷ s.calls else s.calls)
  unfolding fetch_telemetry
  fetch_telemetry-calls b prefix s = store-calls _ prefix _ ∙ (logout_if-calls b prefix _).1

  after_login-IsLoggedOut :
      (r : Outcome (Unit {0})) (prefix : Text) (calls : List Call) (s : Mesh o)
      → s.calls ≡ login_call prefix (is_ok r) ∷ calls
      → IsLoggedOut prefix calls (telemetry_after_login prefix r s).1.calls
  unfolding telemetry_after_login
  after_login-IsLoggedOut (ok u) prefix calls s h =
      inr (inr (fetch_telemetry-calls true prefix s ∙ ap (λ c. logout_call prefix ∷ c) h))
  after_login-IsLoggedOut (err reason) prefix calls s h = inr (inl h)

  telemetry_with-IsLoggedOut :
      (password : Option Text) (prefix : Text) (s : Mesh o)
      → IsLoggedOut prefix s.calls (telemetry_with prefix password s).1.calls
  unfolding telemetry_with login
  telemetry_with-IsLoggedOut none prefix s = inl (fetch_telemetry-calls false prefix s)
  telemetry_with-IsLoggedOut (some password) prefix s =
      after_login-IsLoggedOut _ prefix s.calls _ refl

  -- A telemetry request logs in at most once, and logs out exactly if that login succeeded,
  -- whether or not the repeater answers the request.
  pub request_telemetry-IsLoggedOut :
      (prefix : Text) (s : Mesh o) → IsLoggedOut prefix s.calls (request_telemetry prefix s).1.calls
  unfolding request_telemetry find_repeater_password
  request_telemetry-IsLoggedOut prefix s = telemetry_with-IsLoggedOut _ prefix s
