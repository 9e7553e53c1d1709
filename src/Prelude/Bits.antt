-- ===== src/Prelude/Bits.antt =====
-- Masks and shifts of bytes, by tables over all bytes.
use Prim.Native.Nat.{ℕ, zero, suc, ◌+◌, ◌*◌, ◌/◌, ◌%◌, ◌<◌, bit_and, bit_or}
use mathlib.Core.Path.{◌≡◌, refl}
use mathlib.Core.Bool.{Bool, true, false}
use native.Mathlib.Omega.{arith}
use fez_meshcore_controller.Prelude.Tests.{◌==◌, if◌then◌else◌}

-- Two functions that have one value at each number under a bound.
agree_under : (f g : ℕ → ℕ) → ℕ → Bool
agree_under f g zero = true
agree_under f g (suc top) = let rest = agree_under f g top in if f top == g top then rest else false

agree_under-eq : (f g : ℕ → ℕ) (bound x : ℕ) → x < bound → agree_under f g bound ≡ true → f x ≡ g x
unfolding agree_under
agree_under-eq f g (suc top) x inside agreed = ground (arith, agree_under-eq f g top x)
agree_under-eq f g zero x inside agreed = absurd (omega (arith, inside))

nibble_table : agree_under (λ x. bit_and x 15) (λ x. x % 16) 256 ≡ true
unfolding agree_under
nibble_table = refl

pub bit_and-nibble : (x : ℕ) → x < 256 → bit_and x 15 ≡ x % 16
bit_and-nibble x h = agree_under-eq _ _ 256 x h nibble_table

two_bits_table : agree_under (λ x. bit_and x 3) (λ x. x % 4) 256 ≡ true
unfolding agree_under
two_bits_table = refl

pub bit_and-two_bits : (x : ℕ) → x < 256 → bit_and x 3 ≡ x % 4
bit_and-two_bits x h = agree_under-eq _ _ 256 x h two_bits_table

six_bits_table : agree_under (λ x. bit_and x 63) (λ x. x % 64) 256 ≡ true
unfolding agree_under
six_bits_table = refl

pub bit_and-six_bits : (x : ℕ) → x < 256 → bit_and x 63 ≡ x % 64
bit_and-six_bits x h = agree_under-eq _ _ 256 x h six_bits_table

high_nibble_table : agree_under (λ x. bit_and x 240) (λ x. x / 16 * 16) 256 ≡ true
unfolding agree_under
high_nibble_table = refl

pub bit_and-high_nibble : (x : ℕ) → x < 256 → bit_and x 240 ≡ x / 16 * 16
bit_and-high_nibble x h = agree_under-eq _ _ 256 x h high_nibble_table

-- `|` of two bit fields that do not overlap is a sum: b fits below the shift of a.
join_table : agree_under (λ x. bit_or (x / 64 * 64) (x % 64)) (λ x. x) 256 ≡ true
unfolding agree_under
join_table = refl

pub bit_or-join_six : (a b : ℕ) → a < 4 → b < 64 → bit_or (a * 64) b ≡ a * 64 + b
bit_or-join_six a b ha hb =
    let x : ℕ = a * 64 + b in
    let high : x / 64 ≡ a = omega arith in
    let low : x % 64 ≡ b = omega arith in
    let whole = agree_under-eq _ _ 256 x (omega arith) join_table in rw (high, low) at whole

three_table :
    agree_under (λ x. bit_or (bit_or (x / 64 * 64) (x / 4 % 16 * 4)) (x % 4)) (λ x. x) 256 ≡ true
unfolding agree_under
three_table = refl

pub bit_or-join_three :
    (a b c : ℕ) → a < 4 → b < 16 → c < 4 → bit_or (bit_or (a * 64) (b * 4)) c ≡ a * 64 + b * 4 + c
bit_or-join_three a b c ha hb hc =
    let x : ℕ = a * 64 + b * 4 + c in
    let high : x / 64 ≡ a = omega arith in
    let mid : x / 4 % 16 ≡ b = omega arith in
    let low : x % 4 ≡ c = omega arith in
    let whole = agree_under-eq _ _ 256 x (omega arith) three_table in rw (high, mid, low) at whole
