-- ===== src/System.antt =====
-- The daemon and a client together: a request for a repeater's detail, from the key press to the
-- popup, through daemon/src/mesh_task.rs, daemon/src/server.rs and cli/src/tui.
mod Examples
use fez_meshcore_controller.Prelude.{
  List, Option, Text, [], codes, if◌then◌else◌, is_some, length, none, some, suc, zero, ℕ, ◌+◌, ◌∷◌,
  ◌≡◌,
}
use fez_meshcore_controller.Core.Crypto.{Primitives}
use fez_meshcore_controller.Core.Mesh.{StatusDto, TelemetryDto, NeighboursDto, RegionHierarchyDto}
use fez_meshcore_controller.Core.Mesh.Detail.{
  Outcome, ok, err, RepeaterDetailDto, RepeaterDetailCategory, status, telemetry, neighbours,
  regions, apply_category,
}
use fez_meshcore_controller.Core.Ipc.{ServerMessage, error_message, repeater_detail_category}
use fez_meshcore_controller.Daemon.MeshTask.Node.{Outside, Mesh}
use fez_meshcore_controller.Daemon.MeshTask.Detail.{request_repeater_detail}
use fez_meshcore_controller.Daemon.Server.{
  Connection, Receipts, category, end_of_updates, deadline, dispatch_repeater_detail,
}
use fez_meshcore_controller.Cli.App.{App, RepeaterDetailView}
use fez_meshcore_controller.Cli.Tui.{apply_server_message}

-- The channel of a request whose categories were all sent, of which the server gets a number before
-- its deadline.
unfoldable pub receipts_of : ℕ → List RepeaterDetailCategory → Receipts
receipts_of in_time [] = end_of_updates
receipts_of zero (c ∷ cs) = deadline
receipts_of (suc in_time) (c ∷ cs) = category c (receipts_of in_time cs)

-- A list put in front of another one element at a time.
unfoldable pub onto : {A : Type 0} → List A → List A → List A
onto [] ys = ys
onto (x ∷ xs) ys = onto xs (x ∷ ys)

-- The client's state after the messages, the earliest first.
unfoldable pub receive : Primitives → App → List ServerMessage → App
unfolding apply_server_message
receive p app [] = app
receive p app (m ∷ ms) = receive p (apply_server_message p app m).app ms

-- The categories that are shown, and the errors.
abbrev pub resolved_count : RepeaterDetailDto → ℕ
resolved_count d =
    (if is_some d.status then 1 else 0)
    + (if is_some d.telemetry then 1 else 0)
    + (if is_some d.neighbours then 1 else 0)
    + (if is_some d.regions then 1 else 0)
    + length d.errors

-- The popup of the repeater is open, and a number of its categories show a value or an error.
unfoldable pub Shows : Text → Text → ℕ → Option RepeaterDetailView → Type 0
Shows prefix name count none = ⊥
Shows prefix name count (some view) =
    (view.public_key_prefix_hex ≡ prefix)
    × (view.name ≡ name)
    × (resolved_count view.detail ≡ count)

-- What the server sends: those in time, and an error if there are more.
unfoldable pub messages_of : Text → ℕ → List RepeaterDetailCategory → List ServerMessage
messages_of prefix in_time [] = []
messages_of prefix zero (c ∷ cs) =
    error_message (codes "timed out waiting for the mesh node (offline?)") ∷ []
messages_of prefix (suc in_time) (c ∷ cs) =
    repeater_detail_category prefix c ∷ messages_of prefix in_time cs

-- The categories in the order that they are sent in.
abbrev asked :
    Outcome StatusDto
    → Outcome TelemetryDto
    → Outcome NeighboursDto
    → Outcome RegionHierarchyDto
    → List RepeaterDetailCategory
asked a t n r = status a ∷ telemetry t ∷ neighbours n ∷ regions r ∷ []

module _ (p : Primitives) (prefix : Text) where
  module _ {o : Outside} where
    -- The messages of the server for a request that the mesh task handles, in order.
    abbrev pub detail_messages : ℕ → Mesh o → Connection → List ServerMessage
    detail_messages n s c =
        onto
          (dispatch_repeater_detail prefix
            (some (receipts_of n (onto (request_repeater_detail prefix s).1.updates []))) c).1.sent
          []
