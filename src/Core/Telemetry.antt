-- ===== src/Core/Telemetry.antt =====
-- core/src/telemetry.rs: telemetry in the CayenneLPP encoding. The rest of the payload from the
-- loop's index on is a list, and a value is its raw integer and the multiplier that divides it.
pub mod Fields
pub mod RoundTrip
use fez_meshcore_controller.Prelude.{
  Bool, List, Option, Text, [], codes, drop, false, find, if◌then◌else◌, leb, length, none, some,
  suc, take, true, zero, ℕ, ◌%◌, ◌*◌, ◌++◌, ◌+◌, ◌-◌, ◌/◌, ◌==◌, ◌>>=◌, ◌>>◌, ◌^◌, ◌∷◌,
}
use fez_meshcore_controller.Prelude.Int.{ℤ, pos, sub_ℕ}
use fez_meshcore_controller.Core.Hex.{Bytes}

pub record TelemetryReading : Type 0 where
  pub channel : ℕ
  pub label : Text
  pub raw_value : ℤ
  pub mult : ℕ
  pub unit : Text

-- (type code, byte size, signed, multiplier, label, unit)
pub record FieldType : Type 0 where
  pub code : ℕ
  pub size : ℕ
  pub signed : Bool
  pub mult : ℕ
  pub label : Text
  pub unit : Text

abbrev pub lpp_gps : ℕ
lpp_gps = 136

abbrev pub degree_sign : Text
degree_sign = 0xC2 ∷ 0xB0 ∷ []

abbrev pub field_type : ℕ → ℕ → Bool → ℕ → Text → Text → FieldType
field_type code size signed mult label unit = record {
  code = code;
  size = size;
  signed = signed;
  mult = mult;
  label = label;
  unit = unit;
}

unfoldable pub types : List FieldType
types =
    field_type 2 2 true 100 (codes "Analog input") []
    ∷ field_type 100 4 false 1 (codes "Generic sensor") []
    ∷ field_type 101 2 false 1 (codes "Luminosity") (codes "lux")
    ∷ field_type 103 2 true 10 (codes "Temperature") ((degree_sign ++ codes "C"))
    ∷ field_type 104 1 false 2 (codes "Relative humidity") (codes "%")
    ∷ field_type 115 2 false 10 (codes "Barometric pressure") (codes "hPa")
    ∷ field_type 116 2 true 100 (codes "Voltage") (codes "V")
    ∷ field_type 117 2 true 1000 (codes "Current") (codes "A")
    ∷ field_type 118 4 false 1 (codes "Frequency") (codes "Hz")
    ∷ field_type 120 1 false 1 (codes "Percentage") (codes "%")
    ∷ field_type 121 2 true 1 (codes "Altitude") (codes "m")
    ∷ field_type 128 2 false 1 (codes "Power") (codes "W")
    ∷ field_type 130 4 false 1000 (codes "Distance") (codes "m")
    ∷ []

unfoldable pub find_type : ℕ → Option FieldType
find_type type_code = find (λ t. t.code == type_code) types

-- `payload.get(from..from + size)`.
unfoldable pub get_range : ℕ → ℕ → Bytes → Option Bytes
get_range from size payload =
    if leb (from + size) (length payload) then some (take size (drop from payload)) else none

-- `(acc << 8) | b`, of a byte b.
unfoldable pub read_go : ℕ → Bytes → ℕ
read_go acc [] = acc
read_go acc (b ∷ bytes) = read_go (acc * 256 + b) bytes

unfoldable pub read_unsigned : Bytes → ℕ
unfolding read_go
read_unsigned bytes = read_go 0 bytes

-- The bit of the sign is tested, and 2^bits is taken off if it is set.
unfoldable pub read_signed : Bytes → ℤ
unfolding read_unsigned
read_signed bytes =
    let raw = read_unsigned bytes in
    let bits = length bytes * 8 in
    if raw / 2 ^ (bits - 1) % 2 == 0 then pos raw else sub_ℕ raw (2 ^ bits)

unfoldable pub gps_readings : ℕ → ℤ → ℤ → ℤ → List TelemetryReading
gps_readings channel lat lon alt =
    record {
      channel = channel;
      label = codes "GPS latitude";
      raw_value = lat;
      mult = 10000;
      unit = degree_sign;
    }
    ∷ record {
      channel = channel;
      label = codes "GPS longitude";
      raw_value = lon;
      mult = 10000;
      unit = degree_sign;
    }
    ∷ record {
      channel = channel;
      label = codes "GPS altitude";
      raw_value = alt;
      mult = 100;
      unit = codes "m";
    }
    ∷ []

unfoldable pub decode_gps : ℕ → Bytes → Option (List TelemetryReading)
unfolding gps_readings get_range read_signed
decode_gps channel payload = do
  lat ← get_range 0 3 payload
  lon ← get_range 3 3 payload
  alt ← get_range 6 3 payload
  some (gps_readings channel (read_signed lat) (read_signed lon) (read_signed alt))

unfoldable pub raw_value : FieldType → Bytes → ℤ
unfolding read_signed read_unsigned
raw_value t bytes = if t.signed then read_signed bytes else pos (read_unsigned bytes)

unfoldable pub reading : ℕ → FieldType → ℤ → TelemetryReading
reading channel t raw = record {
  channel = channel;
  label = t.label;
  raw_value = raw;
  mult = t.mult;
  unit = t.unit;
}

-- One pass of the loop: the readings of the field at the index and the bytes after it, or the
-- `break`.
unfoldable pub decode_field : ℕ → ℕ → Bytes → Option (List TelemetryReading × Bytes)
unfolding decode_gps find_type get_range raw_value reading
decode_field channel type_code payload =
    if type_code == lpp_gps
    then (do fields ← decode_gps channel payload; some (fields, drop 9 payload))
    else (do
      t ← find_type type_code
      bytes ← get_range 0 t.size payload
      some (reading channel t (raw_value t bytes) ∷ [], drop t.size payload))

-- The loop, on fuel: each pass takes bytes away.
unfoldable pub decode_from : ℕ → Bytes → List TelemetryReading
unfolding decode_field
decode_from zero raw = []
decode_from (suc fuel) [] = []
decode_from (suc fuel) (channel ∷ []) = []
decode_from (suc fuel) (channel ∷ type_code ∷ payload) =
    elim (decode_field channel type_code payload) [
      | none ↦ []
      | some (readings, rest) ↦ readings ++ decode_from fuel rest
    ]

unfoldable pub decode_telemetry : Bytes → List TelemetryReading
unfolding decode_from
decode_telemetry raw = decode_from (length raw) raw
