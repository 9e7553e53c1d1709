-- ===== src/Core/Telemetry/RoundTrip.antt =====
-- `decode` of core/src/telemetry.rs gives back what the firmware encoded, whatever padding follows.
use fez_meshcore_controller.Prelude.{
  All, Bool, List, Option-cases, [], all, ap, arith, drop, drop-append, false, find, if◌then◌else◌,
  inl, inr, leb, length, length-append, length-drop, not, refl, some, suc, sym, take-append, true,
  zero, ℕ, ◌&&◌, ◌++◌, ◌+◌, ◌==◌, ◌||◌, ◌∙◌, ◌∷◌, ◌≡◌, ◌≤◌,
}
use fez_meshcore_controller.Prelude.Int.{ℤ, pos, negsuc}
use mathlib.Core.List.{append_assoc}
use fez_meshcore_controller.Core.Hex.{Bytes}
use fez_meshcore_controller.Core.Telemetry.{
  TelemetryReading, FieldType, types, find_type, get_range, decode_gps, raw_value, read_unsigned,
  read_signed, gps_readings, reading, decode_field, decode_from, decode_telemetry,
}
use fez_meshcore_controller.Core.Telemetry.Fields.{
  Field, scalar, gps, raw_of, int_bytes, field_bytes, payload_bytes, readings_of, all_readings,
  Fits, IsField, length-be_bytes, read_unsigned-be_bytes, read_signed-int_bytes,
}

length-int_bytes : (size : ℕ) (z : ℤ) → length (int_bytes size z) ≡ size
unfolding int_bytes
length-int_bytes size z = length-be_bytes size (raw_of size z)

-- What the table promises of each of its types.
abbrev is_sound : FieldType → Bool
is_sound t =
    (t.size == 1 || (t.size == 2 || t.size == 4))
    && ((not t.signed || t.size == 2) && not (t.code == 136))

types_sound : all is_sound types ≡ true
unfolding types
types_sound = refl

all-find :
    (q p : FieldType → Bool) (ts : List FieldType) (t : FieldType)
    → all q ts ≡ true
    → find p ts ≡ some t
    → q t ≡ true
all-find q p [] t h e = cc
all-find q p (x ∷ ts) t h e = ground (arith, all-find q p ts t)

found_sound : (code : ℕ) (t : FieldType) → find_type code ≡ some t → is_sound t ≡ true
unfolding find_type
found_sound code t e = all-find is_sound (λ t. t.code == code) types t types_sound e

get_range-at :
    (from size : ℕ) (xs ys zs : Bytes)
    → length xs ≡ from
    → length ys ≡ size
    → get_range from size (xs ++ (ys ++ zs)) ≡ some ys
unfolding get_range
get_range-at from size xs ys zs a b =
    let long : leb (length xs + length ys) (length (xs ++ (ys ++ zs))) ≡ true =
      ground (arith, length-append xs (ys ++ zs), length-append ys zs) in
    rw (← a, ← b, long, drop-append xs (ys ++ zs), take-append ys zs) refl

drop-at : (n : ℕ) (xs ys : Bytes) → length xs ≡ n → drop n (xs ++ ys) ≡ ys
drop-at n xs ys a = rw a at (drop-append {A = ℕ} xs ys)

read_back :
    (signed : Bool) (size : ℕ) (z : ℤ)
    → (signed ≡ true → size ≡ 2)
    → Fits signed size z
    → (if signed then read_signed (int_bytes size z) else pos (read_unsigned (int_bytes size z)))
      ≡ z
read_back true size z two h = read_signed-int_bytes size z (inl (two refl)) h
read_back false size (pos n) two h =
    unfold int_bytes raw_of in ap pos (read_unsigned-be_bytes size n h)
read_back false size (negsuc n) two h = absurd h

raw_value-int_bytes :
    (t : FieldType) (z : ℤ)
    → is_sound t ≡ true
    → Fits t.signed t.size z
    → raw_value t (int_bytes t.size z) ≡ z
unfolding raw_value
raw_value-int_bytes t z s h = read_back t.signed t.size z (λ e. ground (arith, s, e)) h

-- One pass of the loop takes one field off the payload.
decode_field-scalar :
    (channel : ℕ) (t : FieldType) (z : ℤ) (rest : Bytes)
    → IsField (scalar channel t z)
    → decode_field channel t.code (int_bytes t.size z ++ rest)
      ≡ some (reading channel t z ∷ [], rest)
unfolding decode_field
decode_field-scalar channel t z rest h =
    let sound = found_sound t.code t h.0 in
    let bytes = int_bytes t.size z in
    let size = length-int_bytes t.size z in
    let not_gps : (t.code == 136) ≡ false = ground (arith, sound) in
    let got : get_range 0 t.size (bytes ++ rest) ≡ some bytes =
      get_range-at 0 t.size [] bytes rest refl size in
    let left : drop t.size (bytes ++ rest) ≡ rest = drop-at t.size bytes rest size in
    rw (not_gps, h.0, got, left, raw_value-int_bytes t z sound h.1) refl

decode_field-gps :
    (channel : ℕ) (lat lon alt : ℤ) (rest : Bytes)
    → IsField (gps channel lat lon alt)
    → decode_field channel 136 ((int_bytes 3 lat ++ (int_bytes 3 lon ++ int_bytes 3 alt)) ++ rest)
      ≡ some (gps_readings channel lat lon alt, rest)
unfolding decode_field decode_gps
decode_field-gps channel lat lon alt rest h =
    let a : Bytes = int_bytes 3 lat in
    let b : Bytes = int_bytes 3 lon in
    let c : Bytes = int_bytes 3 alt in
    let three = length-int_bytes 3 in
    let six : length (a ++ b) ≡ 6 = omega (arith, length-append a b, three lat, three lon) in
    let nine : length ((a ++ b) ++ c) ≡ 9 =
      omega (arith, length-append (a ++ b) c, six, three alt) in
    let after_six : (a ++ b) ++ (c ++ rest) ≡ a ++ (b ++ (c ++ rest)) =
      append_assoc a b (c ++ rest) in
    let after_nine : ((a ++ b) ++ c) ++ rest ≡ a ++ (b ++ (c ++ rest)) =
      append_assoc (a ++ b) c rest ∙ after_six in
    let got_alt : get_range 6 3 (a ++ (b ++ (c ++ rest))) ≡ some c =
      rw after_six at (get_range-at 6 3 (a ++ b) c rest six (three alt)) in
    let left : drop 9 (a ++ (b ++ (c ++ rest))) ≡ rest =
      rw after_nine at (drop-at 9 ((a ++ b) ++ c) rest nine) in
    let shape : (a ++ (b ++ c)) ++ rest ≡ a ++ (b ++ (c ++ rest)) =
      append_assoc a (b ++ c) rest ∙ ap (λ r. a ++ r) (append_assoc b c rest) in
    rw
      (
        shape,
        get_range-at 0 3 [] a (b ++ (c ++ rest)) refl (three lat),
        get_range-at 3 3 a b (c ++ rest) (three lat) (three lon),
        got_alt,
        left,
        read_signed-int_bytes 3 lat (inr refl) h.0,
        read_signed-int_bytes 3 lon (inr refl) h.1,
        read_signed-int_bytes 3 alt (inr refl) h.2,
      )
      refl

decode_field-shorter :
    (channel type_code : ℕ) (payload : Bytes) (readings : List TelemetryReading) (rest : Bytes)
    → decode_field channel type_code payload ≡ some (readings, rest)
    → length rest ≤ length payload
unfolding decode_field
decode_field-shorter channel type_code payload readings rest e =
    elim (Option-cases (find_type type_code)) [
      | inl unknown ↦ ground (arith, e, unknown, length-drop 9 payload)
      | inr (t, found) ↦ ground (arith, e, found, length-drop 9 payload, length-drop t.size payload)
    ]

decode_from-field :
    (fuel : ℕ) (f : Field) (rest : Bytes)
    → IsField f
    → decode_from (suc fuel) (field_bytes f ++ rest) ≡ readings_of f ++ decode_from fuel rest
unfolding decode_from field_bytes readings_of
decode_from-field fuel (scalar channel t z) rest h =
    rw (decode_from, decode_field-scalar channel t z rest h) refl
decode_from-field fuel (gps channel lat lon alt) rest h =
    rw (decode_from, decode_field-gps channel lat lon alt rest h) refl

same_fuel :
    (n m : ℕ) (raw : Bytes)
    → length raw ≤ n
    → length raw ≤ m
    → decode_from n raw ≡ decode_from m raw
unfolding decode_from
same_fuel zero zero raw h k = refl
same_fuel zero (suc m) [] h k = refl
same_fuel zero (suc m) (c ∷ raw) h k = absurd (omega (arith, h))
same_fuel (suc n) zero [] h k = refl
same_fuel (suc n) zero (c ∷ raw) h k = absurd (omega (arith, k))
same_fuel (suc n) (suc m) [] h k = refl
same_fuel (suc n) (suc m) (c ∷ []) h k = refl
same_fuel (suc n) (suc m) (c ∷ d ∷ payload) h k = elim (Option-cases (decode_field c d payload)) [
  | inl stopped ↦ rw (decode_from, stopped) refl
  | inr ((readings, rest), e) ↦
      let shorter = decode_field-shorter c d payload readings rest e in
      let ih = same_fuel n m rest (omega (arith, h, shorter)) (omega (arith, k, shorter)) in
      rw (decode_from, e, ih) refl
]

-- Fuel for each byte is enough: more changes nothing.
pub decode_from-enough :
    (fuel : ℕ) (raw : Bytes) → length raw ≤ fuel → decode_from fuel raw ≡ decode_telemetry raw
unfolding decode_telemetry
decode_from-enough fuel raw h = same_fuel fuel (length raw) raw h (omega arith)

-- With fuel for each field, and one pass more.
decode_from-payload :
    (fields : List Field) (padding : Bytes) (fuel : ℕ)
    → length fields ≤ fuel
    → All IsField fields
    → decode_from (suc fuel) (payload_bytes fields (0 ∷ 0 ∷ padding)) ≡ all_readings fields
unfolding payload_bytes all_readings
decode_from-payload [] padding fuel k h = unfold decode_from decode_field find_type types in refl
decode_from-payload (f ∷ fields) padding zero k h = absurd (omega (arith, k))
decode_from-payload (f ∷ fields) padding (suc fuel) k h =
    let rest = payload_bytes fields (0 ∷ 0 ∷ padding) in
    rw
      (
        decode_from-field (suc fuel) f rest h.0,
        decode_from-payload fields padding fuel (omega (arith, k)) h.1,
      )
      refl

-- Fields of known types and positions, within their ranges, that the firmware encodes are decoded to
-- exactly their readings, in order, when two zero bytes of padding follow, whatever comes after.
pub decode_telemetry-payload :
    (fields : List Field) (padding : Bytes)
    → All IsField fields
    → decode_telemetry (payload_bytes fields (0 ∷ 0 ∷ padding)) ≡ all_readings fields
decode_telemetry-payload fields padding h =
    let raw = payload_bytes fields (0 ∷ 0 ∷ padding) in
    let fuel = length fields + length raw in
    sym (decode_from-enough (suc fuel) raw (omega arith))
    ∙ decode_from-payload fields padding fuel (omega arith) h
