-- ===== src/Cli/App/Streaming.antt =====
-- The updates of a repeater's detail that reach the client, one category at a time.
use fez_meshcore_controller.Prelude.{
  Bool, List, Text, [], ap, false, if◌then◌else◌, refl, some, text_eq, true, ◌∙◌, ◌∷◌, ◌≡◌,
}
use fez_meshcore_controller.Core.Mesh.Detail.{
  RepeaterDetailDto, RepeaterDetailCategory, pending, apply_category,
}
use fez_meshcore_controller.Core.Mesh.Detail.Folding.{apply_all}
use fez_meshcore_controller.Cli.App.{App, RepeaterDetailView}
use fez_meshcore_controller.Cli.App.Detail.{
  open_repeater_detail_pending, apply_repeater_detail_category,
}

-- The updates in the order that they arrive in, each with the key prefix that it is for.
unfoldable pub apply_updates : App → List (Text × RepeaterDetailCategory) → App
unfolding apply_repeater_detail_category
apply_updates app [] = app
apply_updates app ((prefix, category) ∷ updates) =
    apply_updates (apply_repeater_detail_category app prefix category) updates

-- The categories that are for one prefix, in order.
unfoldable pub categories_for :
    Text → List (Text × RepeaterDetailCategory) → List RepeaterDetailCategory
unfolding text_eq
categories_for prefix [] = []
categories_for prefix ((q, category) ∷ updates) =
    let rest = categories_for prefix updates in if text_eq prefix q then category ∷ rest else rest

abbrev pub view_of : Text → Text → RepeaterDetailDto → RepeaterDetailView
view_of prefix name detail = record { public_key_prefix_hex = prefix; name = name; detail = detail }

apply_update-view :
    (app : App) (prefix name q : Text) (detail : RepeaterDetailDto)
    (category : RepeaterDetailCategory) (t : Bool)
    → app.repeater_detail ≡ some (view_of prefix name detail)
    → text_eq prefix q ≡ t
    → (apply_repeater_detail_category app q category).repeater_detail
      ≡ some (view_of prefix name (if t then apply_category detail category else detail))
unfolding apply_repeater_detail_category
apply_update-view app prefix name q detail category true h e = rw (h, e) refl
apply_update-view app prefix name q detail category false h e = rw (h, e) refl

apply_all_if :
    (detail : RepeaterDetailDto) (category : RepeaterDetailCategory)
    (rest : List RepeaterDetailCategory) (t : Bool)
    → apply_all (if t then apply_category detail category else detail) rest
      ≡ apply_all detail (if t then category ∷ rest else rest)
unfolding apply_all
apply_all_if detail category rest true = refl
apply_all_if detail category rest false = refl

apply_updates-view :
    (app : App) (prefix name : Text) (detail : RepeaterDetailDto)
    (updates : List (Text × RepeaterDetailCategory))
    → app.repeater_detail ≡ some (view_of prefix name detail)
    → (apply_updates app updates).repeater_detail
      ≡ some (view_of prefix name (apply_all detail (categories_for prefix updates)))
unfolding apply_updates categories_for apply_all
apply_updates-view app prefix name detail [] h = h
apply_updates-view app prefix name detail ((q, category) ∷ updates) h =
    apply_updates-view (apply_repeater_detail_category app q category) prefix name
      (if text_eq prefix q then apply_category detail category else detail) updates
      (apply_update-view app prefix name q detail category (text_eq prefix q) h refl)
    ∙ ap (λ d. some (view_of prefix name d))
        (apply_all_if detail category (categories_for prefix updates) (text_eq prefix q))

-- A popup that is opened for a repeater shows, after any updates in any order, what the updates
-- for this repeater alone fold to; those of requests for others are dropped.
pub apply_updates_own :
    (app : App) (prefix name : Text) (updates : List (Text × RepeaterDetailCategory))
    → (apply_updates (open_repeater_detail_pending app prefix name) updates).repeater_detail
      ≡ some (view_of prefix name (apply_all pending (categories_for prefix updates)))
unfolding open_repeater_detail_pending
apply_updates_own app prefix name updates =
    apply_updates-view (open_repeater_detail_pending app prefix name) prefix name pending updates
      refl
