-- ===== src/Core/Mesh/Detail/Folding.antt =====
-- What a stream of category updates leaves in the accumulator.
use fez_meshcore_controller.Prelude.{List, Option, Text, [], codes, some, ◌++◌, ◌∙◌, ◌∷◌, ◌≡◌}
use mathlib.Core.List.{append-nil, append_assoc}
use fez_meshcore_controller.Core.Mesh.{StatusDto, TelemetryDto, NeighboursDto, RegionHierarchyDto}
use fez_meshcore_controller.Core.Mesh.Detail.{
  ok, err, RepeaterDetailDto, RepeaterDetailCategory, status, telemetry, neighbours, regions,
  apply_category,
}

-- The updates of a stream, applied in order.
unfoldable pub apply_all : RepeaterDetailDto → List RepeaterDetailCategory → RepeaterDetailDto
apply_all d [] = d
apply_all d (c ∷ cs) = apply_all (apply_category d c) cs

-- The last success of each category, after `o`.
abbrev pub last_status : Option StatusDto → List RepeaterDetailCategory → Option StatusDto
last_status o [] = o
last_status o (status (ok s) ∷ cs) = last_status (some s) cs
last_status o (_ ∷ cs) = last_status o cs

abbrev pub last_telemetry : Option TelemetryDto → List RepeaterDetailCategory → Option TelemetryDto
last_telemetry o [] = o
last_telemetry o (telemetry (ok s) ∷ cs) = last_telemetry (some s) cs
last_telemetry o (_ ∷ cs) = last_telemetry o cs

abbrev pub last_neighbours :
    Option NeighboursDto → List RepeaterDetailCategory → Option NeighboursDto
last_neighbours o [] = o
last_neighbours o (neighbours (ok s) ∷ cs) = last_neighbours (some s) cs
last_neighbours o (_ ∷ cs) = last_neighbours o cs

abbrev pub last_regions :
    Option RegionHierarchyDto → List RepeaterDetailCategory → Option RegionHierarchyDto
last_regions o [] = o
last_regions o (regions (ok s) ∷ cs) = last_regions (some s) cs
last_regions o (_ ∷ cs) = last_regions o cs

-- The line of each failure, in order.
abbrev pub failure_lines : List RepeaterDetailCategory → List Text
failure_lines [] = []
failure_lines (status (err r) ∷ cs) = (codes "status: " ++ r) ∷ failure_lines cs
failure_lines (telemetry (err r) ∷ cs) = (codes "telemetry: " ++ r) ∷ failure_lines cs
failure_lines (neighbours (err r) ∷ cs) = (codes "neighbours: " ++ r) ∷ failure_lines cs
failure_lines (regions (err r) ∷ cs) = (codes "regions: " ++ r) ∷ failure_lines cs
failure_lines (_ ∷ cs) = failure_lines cs

abbrev pub summary : RepeaterDetailDto → List RepeaterDetailCategory → RepeaterDetailDto
summary d cs = record {
  status = last_status d.status cs;
  telemetry = last_telemetry d.telemetry cs;
  neighbours = last_neighbours d.neighbours cs;
  regions = last_regions d.regions cs;
  errors = d.errors ++ failure_lines cs;
}

-- After any stream of updates each category holds its last success (or what it held before), and
-- the errors are those held before followed by one line for each failure, in order.
pub apply_all-summary :
    (d : RepeaterDetailDto) (cs : List RepeaterDetailCategory) → apply_all d cs ≡ summary d cs
unfolding apply_all apply_category
apply_all-summary d [] = rw append-nil
apply_all-summary d (status (ok s) ∷ cs) = apply_all-summary (record d { status = some s }) cs
apply_all-summary d (status (err r) ∷ cs) =
    apply_all-summary (apply_category d (status (err r))) cs ∙ rw append_assoc
apply_all-summary d (telemetry (ok s) ∷ cs) = apply_all-summary (record d { telemetry = some s }) cs
apply_all-summary d (telemetry (err r) ∷ cs) =
    apply_all-summary (apply_category d (telemetry (err r))) cs ∙ rw append_assoc
apply_all-summary d (neighbours (ok s) ∷ cs) =
    apply_all-summary (record d { neighbours = some s }) cs
apply_all-summary d (neighbours (err r) ∷ cs) =
    apply_all-summary (apply_category d (neighbours (err r))) cs ∙ rw append_assoc
apply_all-summary d (regions (ok s) ∷ cs) = apply_all-summary (record d { regions = some s }) cs
apply_all-summary d (regions (err r) ∷ cs) =
    apply_all-summary (apply_category d (regions (err r))) cs ∙ rw append_assoc
