-- ===== src/Core/Channel/Lossy.antt =====
-- `String::from_utf8_lossy`: each maximal invalid part of the input becomes U+FFFD.
use fez_meshcore_controller.Prelude.{
  All, Bool, Bool-cases, List, Text, [], all, ap, arith, if◌then◌else◌, inl, inr, leb, length,
  length-append, ltb, ltb→lt, not, refl, suc, true, zero, ℕ, ◌%◌, ◌&&◌, ◌++◌, ◌+◌, ◌-◌, ◌/◌, ◌<◌,
  ◌==◌, ◌∙◌, ◌∷◌, ◌≡◌, ◌≤◌, ◌⊎◌,
}
use fez_meshcore_controller.Core.Hex.{Bytes}

abbrev between : ℕ → ℕ → ℕ → Bool
between low b high = leb low b && leb b high

-- The length that a first byte announces, 0 for none.
abbrev width : ℕ → ℕ
width b =
    if ltb b 0x80
    then 1
    else if between 0xC2 b 0xDF
    then 2
    else if between 0xE0 b 0xEF
    then 3
    else if between 0xF0 b 0xF4
    then 4
    else 0

-- Whether a second byte may follow the first.
abbrev follows : ℕ → ℕ → Bool
follows b c =
    if b == 0xE0
    then between 0xA0 c 0xBF
    else if b == 0xED
    then between 0x80 c 0x9F
    else if b == 0xF0
    then between 0x90 c 0xBF
    else if b == 0xF4
    then between 0x80 c 0x8F
    else between 0x80 c 0xBF

abbrev replacement : Bytes
replacement = 0xEF ∷ 0xBF ∷ 0xBD ∷ []

-- After a valid part of `left` bytes less than announced: the part is taken, or replaced.
abbrev more : ℕ → Bytes → Bytes → Bytes × Bytes
more zero seen rest = (seen, rest)
more (suc left) seen [] = (replacement, [])
more (suc left) seen (c ∷ rest) =
    let next = more left (seen ++ c ∷ []) rest in
    if between 0x80 c 0xBF then next else (replacement, c ∷ rest)

-- The first part of the input, valid or replaced, and the rest.
unfoldable pub chunk : ℕ → Bytes → Bytes × Bytes
chunk b rest =
    if width b == 0
    then (replacement, rest)
    else if width b == 1
    then (b ∷ [], rest)
    else elim rest [
      | [] ↦ (replacement, [])
      | c ∷ after ↦
          if follows b c then more (width b - 2) (b ∷ c ∷ []) after else (replacement, c ∷ after)
    ]

-- On fuel for each byte: a part has one byte at least.
unfoldable pub lossy_from : ℕ → Bytes → Bytes
unfolding chunk
lossy_from zero bytes = []
lossy_from (suc fuel) [] = []
lossy_from (suc fuel) (b ∷ rest) = let next = chunk b rest in next.0 ++ lossy_from fuel next.1

unfoldable pub from_utf8_lossy : Bytes → Text
unfolding lossy_from
from_utf8_lossy bytes = lossy_from (length bytes) bytes

-- UTF-8 of a character.
abbrev pub utf8_char : ℕ → Bytes
utf8_char c =
    if ltb c 0x80
    then c ∷ []
    else if ltb c 0x800
    then (0xC0 + c / 64) ∷ (0x80 + c % 64) ∷ []
    else if ltb c 0x10000
    then (0xE0 + c / 4096) ∷ (0x80 + c / 64 % 64) ∷ (0x80 + c % 64) ∷ []
    else (0xF0 + c / 262144) ∷ (0x80 + c / 4096 % 64) ∷ (0x80 + c / 64 % 64) ∷ (0x80 + c % 64) ∷ []

abbrev pub utf8 : List ℕ → Bytes
utf8 [] = []
utf8 (c ∷ cs) = utf8_char c ++ utf8 cs

-- Not a surrogate, nor beyond the last plane, nor the terminator.
abbrev pub IsChar : ℕ → Type 0
IsChar c = (0 < c) × (c < 0x110000) × ((c < 0xD800) ⊎ (0xE000 ≤ c))

chunk_two :
    (b c : ℕ) (rest : Bytes)
    → between 0xC2 b 0xDF ≡ true
    → between 0x80 c 0xBF ≡ true
    → chunk b (c ∷ rest) ≡ (b ∷ c ∷ [], rest)
unfolding chunk
chunk_two b c rest h k = ground (arith, h, k)

chunk_three :
    (b c d : ℕ) (rest : Bytes)
    → between 0xE0 b 0xEF ≡ true
    → follows b c ≡ true
    → between 0x80 d 0xBF ≡ true
    → chunk b (c ∷ d ∷ rest) ≡ (b ∷ c ∷ d ∷ [], rest)
unfolding chunk
chunk_three b c d rest h k l =
    let three : width b ≡ 3 = ground (arith, h) in rw (chunk, three, k) (rw l refl)

chunk_four :
    (b c d e : ℕ) (rest : Bytes)
    → between 0xF0 b 0xF4 ≡ true
    → follows b c ≡ true
    → between 0x80 d 0xBF ≡ true
    → between 0x80 e 0xBF ≡ true
    → chunk b (c ∷ d ∷ e ∷ rest) ≡ (b ∷ c ∷ d ∷ e ∷ [], rest)
unfolding chunk
chunk_four b c d e rest h k l m =
    let four : width b ≡ 4 = ground (arith, h) in rw (chunk, four, k) (rw (l, m) refl)

chunk_one : (b : ℕ) (rest : Bytes) → b < 0x80 → chunk b rest ≡ (b ∷ [], rest)
unfolding chunk
chunk_one b rest h = ground (arith, h)

-- One character comes off the front.
abbrev Takes : ℕ → Bytes → Bytes → Type 0
Takes fuel char rest = lossy_from (suc fuel) (char ++ rest) ≡ char ++ lossy_from fuel rest

lossy_from-utf8_char : (fuel c : ℕ) (rest : Bytes) → IsChar c → Takes fuel (utf8_char c) rest
unfolding lossy_from
lossy_from-utf8_char fuel c rest h = elim (Bool-cases (ltb c 0x80)) [
  | inl one ↦ rw one (rw (chunk_one c rest (ltb→lt c 0x80 one)) refl)
  | inr past_one ↦ elim (Bool-cases (ltb c 0x800)) [
    | inl two ↦
        rw (past_one, two)
          (rw
            (chunk_two (0xC0 + c / 64) (0x80 + c % 64) rest (ground (arith, past_one, two))
              (ground arith))
            refl)
    | inr past_two ↦ elim (Bool-cases (ltb c 0x10000)) [
      | inl three ↦
          rw (past_one, past_two, three)
            (rw
              (chunk_three (0xE0 + c / 4096) (0x80 + c / 64 % 64) (0x80 + c % 64) rest
                (ground (arith, past_two, three)) (ground (arith, past_two, three, h))
                (ground arith))
              refl)
      | inr four ↦
          rw (past_one, past_two, four)
            (rw
              (chunk_four (0xF0 + c / 262144) (0x80 + c / 4096 % 64) (0x80 + c / 64 % 64)
                (0x80 + c % 64) rest (ground (arith, four, h)) (ground (arith, four, h))
                (ground arith) (ground arith))
              refl)
    ]
  ]
]

lossy_from-utf8 :
    (cs : List ℕ) (fuel : ℕ)
    → All IsChar cs
    → length cs ≤ fuel
    → lossy_from fuel (utf8 cs) ≡ utf8 cs
unfolding lossy_from
lossy_from-utf8 [] zero h k = refl
lossy_from-utf8 [] (suc fuel) h k = refl
lossy_from-utf8 (c ∷ cs) zero h k = absurd (omega (arith, k))
lossy_from-utf8 (c ∷ cs) (suc fuel) h k =
    lossy_from-utf8_char fuel c (utf8 cs) h.0
    ∙ ap (λ t. utf8_char c ++ t) (lossy_from-utf8 cs fuel h.1 (omega (arith, k)))

length-utf8 : (cs : List ℕ) → length cs ≤ length (utf8 cs)
length-utf8 [] = omega arith
length-utf8 (c ∷ cs) =
    let some_byte : 1 ≤ length (utf8_char c) = ground arith in
    omega (arith, length-append (utf8_char c) (utf8 cs), length-utf8 cs, some_byte)

-- Text in UTF-8 is read as it is.
pub from_utf8_lossy-utf8 : (cs : List ℕ) → All IsChar cs → from_utf8_lossy (utf8 cs) ≡ utf8 cs
unfolding from_utf8_lossy
from_utf8_lossy-utf8 cs h = lossy_from-utf8 cs (length (utf8 cs)) h (length-utf8 cs)

-- No byte of a character is zero.
pub utf8_char-nonzero : (c : ℕ) → IsChar c → all (λ b. not (b == 0)) (utf8_char c) ≡ true
utf8_char-nonzero c h = ground (arith, h)
