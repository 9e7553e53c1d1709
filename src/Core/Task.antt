-- ===== src/Core/Task.antt =====
-- Stateful and fallible code: the `async` functions of the daemon and of the client of
-- core/src/mesh.rs, with `?` on their results.
use fez_meshcore_controller.Prelude.{Bool, Text, false, true}
use fez_meshcore_controller.Core.Mesh.Detail.{Outcome, ok, err}

-- Stateful code: a function of the state that gives a value and the next state.
abbrev pub Task : Type 0 → Type 0 → Type 0
Task S A = S → A × S

module _ {S : Type 0} where
  abbrev pub pure : {A : Type 0} → A → Task S A
  pure a s = (a, s)

  infixl 5 ◌>>=◌ ◌>>◌
  abbrev pub ◌>>=◌ : {A B : Type 0} → Task S A → (A → Task S B) → Task S B
  ◌>>=◌ m f s = f (m s).0 (m s).1

  abbrev pub ◌>>◌ : {A B : Type 0} → Task S A → Task S B → Task S B
  ◌>>◌ m k s = k (m s).1

  -- `if` without an `else`.
  abbrev pub when : Bool → Task S (Unit {0}) → Task S (Unit {0})
  when true m = m
  when false m = pure tt

  -- `?` on a result.
  abbrev pub and_then : {A B : Type 0} → Outcome A → (A → Task S (Outcome B)) → Task S (Outcome B)
  and_then (ok a) f = f a
  and_then (err reason) f = pure (err reason)

abbrev pub map_err : {A : Type 0} → (Text → Text) → Outcome A → Outcome A
map_err f (ok a) = ok a
map_err f (err reason) = err (f reason)

abbrev pub is_ok : {A : Type 0} → Outcome A → Bool
is_ok (ok a) = true
is_ok (err reason) = false
