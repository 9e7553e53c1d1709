-- ===== src/Daemon/Mqtt.antt =====
-- daemon/src/mqtt.rs: the worker of an MQTT broker. The clock's and the numbers' formats are code
-- outside of the repository.
pub mod Message
pub mod Events
pub mod Credentials
pub mod Publish
pub mod Worker
use fez_meshcore_controller.Prelude.{
  Text, [], if◌then◌else◌, length, starts_with, suc, zero, ℕ, ◌++◌, ◌-◌, ◌∷◌,
}
use fez_meshcore_controller.Prelude.Int.{ℤ}
use fez_meshcore_controller.Core.Json.{Encoders}
use fez_meshcore_controller.Core.Mesh.Source.{Names, EventPayload}

-- `DateTime<Utc>`, with its `timestamp`.
pub record Instant : Type 0 where
  pub unix : ℤ
  pub micros : ℕ

-- `format_thousandths` prints a number of kHz as the MHz, or of Hz as the kHz, that a
-- `SelfInfoDto` holds; `debug_payload` is `{:?}`.
pub record Formats : Type 0 where
  pub encoders : Encoders
  pub names : Names
  pub to_rfc3339 : Instant → Text
  pub format_time : Instant → Text
  pub format_date : Instant → Text
  pub format_thousandths : ℕ → Text
  pub debug_payload : EventPayload → Text
  pub client_version : Text

-- `str::replace` of a pattern that is not empty: `skipped` bytes of a match are left.
unfoldable pub replace_from : ℕ → Text → Text → Text → Text
unfolding starts_with
replace_from skipped pattern by [] = []
replace_from (suc skipped) pattern by (c ∷ text) = replace_from skipped pattern by text
replace_from zero pattern by (c ∷ text) =
    let replaced = replace_from (length pattern - 1) pattern by text in
    let kept = replace_from 0 pattern by text in
    if starts_with (c ∷ text) pattern then by ++ replaced else c ∷ kept

unfoldable pub replace : Text → Text → Text → Text
unfolding replace_from
replace text pattern by = replace_from 0 pattern by text
