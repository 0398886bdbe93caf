-- ===== src/Json.antt =====
-- The accessors of include/aniparse/json/Json.hpp over a parsed `boost::json::value`. The type of
-- a double and its conversions are parameters. An object is its entries in their order.
use aniparse.Prelude.{
  ℕ, ◌-◌, ◌%◌, ◌^◌, Bool, true, false, List, [], ◌∷◌, Option, none, some, ltb, Bytes, if◌then◌else◌,
  ◌>>=◌,
}
use aniparse.Prelude.Int.{ℤ, pos, negsuc}
use aniparse.Prelude.StdMap.{StdMap, find}

mutual
  pub data Json (Real : Type 0) : Type 0 where
    null : Json Real
    boolean_value : Bool → Json Real
    int64 : ℤ → Json Real
    uint64 : ℕ → Json Real
    double : Real → Json Real
    string : Bytes → Json Real
    array : Items Real → Json Real
    object : Fields Real → Json Real

  pub data Items (Real : Type 0) : Type 0 where
    no_item : Items Real
    item : Json Real → Items Real → Items Real

  pub data Fields (Real : Type 0) : Type 0 where
    no_field : Fields Real
    field : Bytes → Json Real → Fields Real → Fields Real

-- `static_cast` between the 64-bit integers.
unfoldable pub to_uint64 : ℤ → ℕ
to_uint64 (pos n) = n % 2 ^ 64
to_uint64 (negsuc n) = 2 ^ 64 - 1 - n % 2 ^ 64

unfoldable pub to_int64 : ℕ → ℤ
to_int64 n = if ltb n (2 ^ 63) then pos n else negsuc (2 ^ 64 - 1 - n)

unfoldable pub text_or_empty : Option Bytes → Bytes
text_or_empty none = []
text_or_empty (some text) = text

module _ {Real : Type 0} where
  abbrev pub elements : Items Real → List (Json Real)
  elements no_item = []
  elements (item v rest) = v ∷ elements rest

  abbrev pub entries : Fields Real → StdMap (Json Real)
  entries no_field = []
  entries (field k v rest) = (k, v) ∷ entries rest

  unfoldable pub if_object : Json Real → Option (StdMap (Json Real))
  if_object (object fields) = some (entries fields)
  if_object other = none

  unfoldable pub if_array : Json Real → Option (List (Json Real))
  if_array (array items) = some (elements items)
  if_array other = none

  unfoldable pub if_string : Json Real → Option Bytes
  if_string (string text) = some text
  if_string other = none

  unfoldable pub is_number : Json Real → Bool
  is_number (int64 z) = true
  is_number (uint64 n) = true
  is_number (double r) = true
  is_number other = false

  unfoldable pub if_contains : Bytes → StdMap (Json Real) → Option (Json Real)
  if_contains key fields = find key fields

  unfoldable pub object_field : StdMap (Json Real) → Bytes → Option (StdMap (Json Real))
  object_field fields key = do value ← if_contains key fields; if_object value

  unfoldable pub array_field : StdMap (Json Real) → Bytes → Option (List (Json Real))
  array_field fields key = do value ← if_contains key fields; if_array value

  unfoldable pub str : StdMap (Json Real) → Bytes → Bytes
  str fields key = text_or_empty (do value ← if_contains key fields; if_string value)

  unfoldable pub value_boolean : Json Real → Bool
  value_boolean (boolean_value b) = b
  value_boolean other = false

  unfoldable pub boolean : StdMap (Json Real) → Bytes → Bool
  boolean fields key = elim (if_contains key fields) [
    | none ↦ false
    | some value ↦ value_boolean value
  ]

  module _ (truncated : Real → ℤ) where
    unfoldable pub value_integer : Json Real → ℤ
    value_integer (int64 z) = z
    value_integer (uint64 n) = to_int64 n
    value_integer (double r) = truncated r
    value_integer other = pos 0

    unfoldable pub integer : StdMap (Json Real) → Bytes → ℤ
    integer fields key = elim (if_contains key fields) [
      | none ↦ pos 0
      | some value ↦ value_integer value
    ]

  module _ (of_integer : ℤ → Real) where
    unfoldable pub value_number : Json Real → Real
    value_number (int64 z) = of_integer z
    value_number (uint64 n) = of_integer (pos n)
    value_number (double r) = r
    value_number other = of_integer (pos 0)

    unfoldable pub number : StdMap (Json Real) → Bytes → Real
    number fields key = elim (if_contains key fields) [
      | none ↦ of_integer (pos 0)
      | some value ↦ value_number value
    ]

  -- The overloads on a pointer to an object, which may be null.
  unfoldable pub object_field_at : Option (StdMap (Json Real)) → Bytes → Option (StdMap (Json Real))
  object_field_at root key = do fields ← root; object_field fields key

  unfoldable pub array_field_at : Option (StdMap (Json Real)) → Bytes → Option (List (Json Real))
  array_field_at root key = do fields ← root; array_field fields key

  unfoldable pub str_at : Option (StdMap (Json Real)) → Bytes → Bytes
  str_at none key = []
  str_at (some fields) key = str fields key
