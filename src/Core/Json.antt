-- ===== src/Core/Json.antt =====
-- JSON values, as `serde_json::Value` of core/src/mqtt_jwt.rs and daemon/src/mqtt.rs. The writer and
-- the other encoders of texts are code outside of the repository.
use fez_meshcore_controller.Prelude.{
  All, Bool, List, Option, Text, [], arith, if◌then◌else◌, leb, map, none, refl, some, text_eq,
  text_eq_iff, ℕ, ◌&&◌, ◌-◌, ◌<◌, ◌∷◌, ◌≡◌,
}
use fez_meshcore_controller.Prelude.Int.{ℤ, pos}
use fez_meshcore_controller.Core.Hex.{Bytes}

-- A floating-point number is the integer that it was divided from, with the divisor.
mutual
  pub data Value : Type 0 where
    null : Value
    boolean : Bool → Value
    integer : ℤ → Value
    quotient : ℤ → ℕ → Value
    string : Text → Value
    array : Values → Value
    object : Fields → Value

  pub data Values : Type 0 where
    nil : Values
    cons : Value → Values → Values

  -- The order of the fields means nothing.
  pub data Fields : Type 0 where
    end : Fields
    field : Text → Value → Fields → Fields

abbrev pub number : ℕ → Value
number n = integer (pos n)

-- `json!` of an `Option`.
abbrev pub nullable : Option Value → Value
nullable none = null
nullable (some v) = v

abbrev pub values : List Value → Values
values [] = nil
values (v ∷ vs) = cons v (values vs)

unfoldable pub get : Text → Fields → Option Value
unfolding text_eq
get k end = none
get k (field j v fields) = if text_eq j k then some v else get k fields

-- `Map::insert`, the fields of an object that is built one by one.
unfoldable pub insert_field : Text → Value → Fields → Fields
unfolding text_eq
insert_field k v end = field k v end
insert_field k v (field j w fields) =
    if text_eq j k then field k v fields else field j w (insert_field k v fields)

-- The later fields win.
unfoldable pub insert_all : Fields → Fields → Fields
unfolding insert_field
insert_all end fields = fields
insert_all (field k v more) fields = insert_all more (insert_field k v fields)

-- `serde_json::to_vec`, `URL_SAFE_NO_PAD.encode` and `str::to_uppercase`. The last changes letters
-- only, in a text of ASCII.
pub record Encoders : Type 0 where
  pub to_vec : Value → Text
  pub base64url : Bytes → Text
  pub to_uppercase : Text → Text
  pub to_uppercase-ascii :
      (t : Text)
      → All (λ c. c < 128) t
      → to_uppercase t ≡ map (λ c. if leb b'a' c && leb c b'z' then c - 32 else c) t

pub get-insert_field :
    (k j : Text) (v : Value) (fields : Fields)
    → get j (insert_field k v fields) ≡ (if text_eq k j then some v else get j fields)
unfolding get insert_field
get-insert_field k j v end = refl
get-insert_field k j v (field i w fields) =
    ground (arith, text_eq_iff k j, text_eq_iff i k, text_eq_iff i j, get-insert_field k j v fields)
