-- ===== src/Core/Telemetry/Fields.antt =====
-- The decoder of core/src/telemetry.rs against the encoder of the firmware's CayenneLPP library.
use fez_meshcore_controller.Prelude.{
  Bool, List, [], arith, false, if◌then◌else◌, inl, inr, length, length-append, refl, some, suc,
  true, zero, ℕ, ◌%◌, ◌*◌, ◌++◌, ◌+◌, ◌-◌, ◌/◌, ◌<◌, ◌==◌, ◌^◌, ◌∷◌, ◌≡◌, ◌≤◌, ◌⊎◌,
}
use fez_meshcore_controller.Prelude.Int.{ℤ, pos, negsuc, sub_ℕ}
use fez_meshcore_controller.Core.Hex.{Bytes}
use fez_meshcore_controller.Core.Telemetry.{
  TelemetryReading, FieldType, find_type, read_go, read_unsigned, read_signed, gps_readings,
  reading,
}

-- What the firmware sends: a number of a type of the table, or a position.
pub data Field : Type 0 where
  scalar : ℕ → FieldType → ℤ → Field
  gps : ℕ → ℤ → ℤ → ℤ → Field

-- Big-endian bytes of a number.
unfoldable pub be_bytes : ℕ → ℕ → Bytes
be_bytes zero n = []
be_bytes (suc size) n = be_bytes size (n / 256) ++ (n % 256 ∷ [])

-- Two's complement.
unfoldable pub raw_of : ℕ → ℤ → ℕ
raw_of size (pos n) = n
raw_of size (negsuc n) = 256 ^ size - (n + 1)

unfoldable pub int_bytes : ℕ → ℤ → Bytes
unfolding be_bytes raw_of
int_bytes size z = be_bytes size (raw_of size z)

unfoldable pub field_bytes : Field → Bytes
unfolding int_bytes
field_bytes (scalar channel t z) = channel ∷ t.code ∷ int_bytes t.size z
field_bytes (gps channel lat lon alt) =
    channel ∷ 136 ∷ (int_bytes 3 lat ++ (int_bytes 3 lon ++ int_bytes 3 alt))

unfoldable pub payload_bytes : List Field → Bytes → Bytes
unfolding field_bytes
payload_bytes [] padding = padding
payload_bytes (f ∷ fs) padding = field_bytes f ++ payload_bytes fs padding

unfoldable pub readings_of : Field → List TelemetryReading
unfolding reading gps_readings
readings_of (scalar channel t z) = reading channel t z ∷ []
readings_of (gps channel lat lon alt) = gps_readings channel lat lon alt

unfoldable pub all_readings : List Field → List TelemetryReading
unfolding readings_of
all_readings [] = []
all_readings (f ∷ fs) = readings_of f ++ all_readings fs

-- Within the range of a signed or an unsigned field of so many bytes.
abbrev pub Fits : Bool → ℕ → ℤ → Type 0
Fits false size (pos n) = n < 256 ^ size
Fits false size (negsuc n) = ⊥
Fits true size (pos n) = 2 * n < 256 ^ size
Fits true size (negsuc n) = 2 * (n + 1) ≤ 256 ^ size

abbrev pub IsField : Field → Type 0
IsField (scalar channel t z) = (find_type t.code ≡ some t) × Fits t.signed t.size z
IsField (gps channel lat lon alt) = Fits true 3 lat × Fits true 3 lon × Fits true 3 alt

pub length-be_bytes : (size n : ℕ) → length (be_bytes size n) ≡ size
unfolding be_bytes
length-be_bytes zero n = refl
length-be_bytes (suc size) n =
    omega (
      arith,
      length-append (be_bytes size (n / 256)) (n % 256 ∷ []),
      length-be_bytes size (n / 256),
    )

read_go-append : (acc b : ℕ) (xs : Bytes) → read_go acc (xs ++ (b ∷ [])) ≡ read_go acc xs * 256 + b
unfolding read_go
read_go-append acc b [] = refl
read_go-append acc b (x ∷ xs) = read_go-append (acc * 256 + x) b xs

pub read_unsigned-be_bytes : (size n : ℕ) → n < 256 ^ size → read_unsigned (be_bytes size n) ≡ n
unfolding read_unsigned be_bytes
read_unsigned-be_bytes zero n h = omega (arith, h)
read_unsigned-be_bytes (suc size) n h =
    let ih = read_unsigned-be_bytes size (n / 256) (omega arith) in
    omega (arith, read_go-append 0 (n % 256) (be_bytes size (n / 256)), ih)

-- The sign is the top bit of the raw number.
abbrev signed_of : ℕ → ℕ → ℤ
signed_of bits raw = if raw / 2 ^ (bits - 1) % 2 == 0 then pos raw else sub_ℕ raw (2 ^ bits)

signed_of-raw_of_2 :
    (z : ℤ) → Fits true 2 z → (raw_of 2 z < 256 ^ 2) × (signed_of 16 (raw_of 2 z) ≡ z)
unfolding raw_of
signed_of-raw_of_2 (pos n) h = ground (arith, h)
signed_of-raw_of_2 (negsuc n) h = ground (arith, h)

signed_of-raw_of_3 :
    (z : ℤ) → Fits true 3 z → (raw_of 3 z < 256 ^ 3) × (signed_of 24 (raw_of 3 z) ≡ z)
unfolding raw_of
signed_of-raw_of_3 (pos n) h = ground (arith, h)
signed_of-raw_of_3 (negsuc n) h = ground (arith, h)

signed_of-raw_of :
    (size : ℕ) (z : ℤ)
    → (size ≡ 2) ⊎ (size ≡ 3)
    → Fits true size z
    → (raw_of size z < 256 ^ size) × (signed_of (size * 8) (raw_of size z) ≡ z)
signed_of-raw_of size z s h = elim s [
  | inl two ↦ rw two (signed_of-raw_of_2 z (rw two at h))
  | inr three ↦ rw three (signed_of-raw_of_3 z (rw three at h))
]

pub read_signed-int_bytes :
    (size : ℕ) (z : ℤ)
    → (size ≡ 2) ⊎ (size ≡ 3)
    → Fits true size z
    → read_signed (int_bytes size z) ≡ z
unfolding read_signed int_bytes
read_signed-int_bytes size z s h =
    let fits = signed_of-raw_of size z s h in
    rw (read_unsigned-be_bytes size (raw_of size z) fits.0, length-be_bytes size (raw_of size z))
      fits.1
