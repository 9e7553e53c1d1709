-- ===== src/Daemon/Mqtt/Events/Naming.antt =====
-- The name of an event's type is recovered from its upper-case form, as a subscriber does.
use fez_meshcore_controller.Prelude.{
  All, Bool, Text, [], arith, false, if◌then◌else◌, not, refl, true, ℕ, ◌&&◌, ◌+◌, ◌==◌, ◌∷◌, ◌≡◌,
  ◌≤◌, ◌⊎◌,
}
use fez_meshcore_controller.Daemon.Mqtt.Events.{is_upper, screaming_rest, screaming_snake_case}

-- The words between underscores, each with a capital: `raised` says that one begins.
unfoldable pub pascal_case : Bool → Text → Text
pascal_case raised [] = []
pascal_case raised (c ∷ text) =
    let word = pascal_case true text in
    let rest = pascal_case false text in
    if c == b'_' then word else (if not raised && is_upper c then c + 32 else c) ∷ rest

abbrev pub IsLetter : ℕ → Type 0
IsLetter c = ((b'A' ≤ c) × (c ≤ b'Z')) ⊎ ((b'a' ≤ c) × (c ≤ b'z'))

pascal_case-screaming_rest :
    (name : Text) → All IsLetter name → pascal_case false (screaming_rest name) ≡ name
unfolding pascal_case screaming_rest
pascal_case-screaming_rest [] h = refl
pascal_case-screaming_rest (c ∷ name) h = ground (arith, h.0, pascal_case-screaming_rest name h.1)

-- A name of letters that begins with a capital is recovered from its upper-case form with
-- underscores, so that two types of events never share a name.
pub pascal_case-screaming_snake_case :
    (c : ℕ) (name : Text)
    → b'A' ≤ c
    → c ≤ b'Z'
    → All IsLetter name
    → pascal_case true (screaming_snake_case (c ∷ name)) ≡ c ∷ name
unfolding pascal_case screaming_snake_case
pascal_case-screaming_snake_case c name l u h = ground (arith, pascal_case-screaming_rest name h)
