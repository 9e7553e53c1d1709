-- ===== src/Core/Mesh/Detail.antt =====
-- `RepeaterDetailDto` of core/src/mesh.rs: the accumulator of a streamed detail fetch.
pub mod Folding
use fez_meshcore_controller.Prelude.{List, Option, Text, [], codes, none, some, ◌++◌, ◌∷◌}
use fez_meshcore_controller.Core.Mesh.{StatusDto, TelemetryDto, NeighboursDto, RegionHierarchyDto}

-- `Result<T, String>`.
pub data Outcome {ℓ} (A : Type ℓ) : Type ℓ where
  ok : A → Outcome A
  err : Text → Outcome A

pub record RepeaterDetailDto : Type 0 where
  pub status : Option StatusDto
  pub telemetry : Option TelemetryDto
  pub neighbours : Option NeighboursDto
  pub regions : Option RegionHierarchyDto
  pub errors : List Text

pub data RepeaterDetailCategory : Type 0 where
  status : Outcome StatusDto → RepeaterDetailCategory
  telemetry : Outcome TelemetryDto → RepeaterDetailCategory
  neighbours : Outcome NeighboursDto → RepeaterDetailCategory
  regions : Outcome RegionHierarchyDto → RepeaterDetailCategory

abbrev pub pending : RepeaterDetailDto
pending = record { status = none; telemetry = none; neighbours = none; regions = none; errors = [] }

add_error : RepeaterDetailDto → Text → Text → RepeaterDetailDto
add_error d category reason = record d {
  errors = d.errors ++ (category ++ (codes ": " ++ reason)) ∷ [];
}

unfoldable pub apply_category : RepeaterDetailDto → RepeaterDetailCategory → RepeaterDetailDto
unfolding add_error
apply_category d (status (ok s)) = record d { status = some s }
apply_category d (status (err reason)) = add_error d (codes "status") reason
apply_category d (telemetry (ok t)) = record d { telemetry = some t }
apply_category d (telemetry (err reason)) = add_error d (codes "telemetry") reason
apply_category d (neighbours (ok n)) = record d { neighbours = some n }
apply_category d (neighbours (err reason)) = add_error d (codes "neighbours") reason
apply_category d (regions (ok r)) = record d { regions = some r }
apply_category d (regions (err reason)) = add_error d (codes "regions") reason
