-- ===== src/Devices/Field.antt =====
-- src/devices/field.ts and the values of src/core/types.ts. The subclasses of `DeviceField` are one
-- record with the subclass as a constructor. A JavaScript number `raw / 10 ** scale` is kept as
-- the pair of `raw` and the power of ten: the double nearest to the quotient stands for it.
pub mod Laws
use bluetti_mqtt_node.Common.{
  ◌%◌, ℕ, zero, suc, ◌+◌, ◌-◌, ◌*◌, ◌/◌, ◌^◌, Bool, true, false, ◌&&◌, List, [], ◌∷◌, ◌++◌,
  get_elem?, map, leb, ◌==◌, if◌then◌else◌, Option, none, some, String,
}
use bluetti_mqtt_node.Errors.{range_error, Result, ok, throws, ◌>>=◌}

-- An enum definition: names and values in the order of `Object.entries`.
abbrev pub EnumDefinition : Type 0
EnumDefinition = List (String × ℕ)

-- The name of an enum value; `unknown` is the text "UNKNOWN_" with the value.
pub data EnumName : Type 0 where
  named : String → EnumName
  unknown : ℕ → EnumName

pub data ParsedValue : Type 0 where
  boolean : Bool → ParsedValue
  number : ℕ → ParsedValue
  -- `raw` and the divisor.
  quotient : ℕ → ℕ → ParsedValue
  quotients : List ℕ → ℕ → ParsedValue
  bigint : ℕ → ParsedValue
  -- A text as its character codes.
  text : List ℕ → ParsedValue
  enum_value : EnumName → ℕ → ParsedValue

abbrev pub Range : Type 0
Range = Option (ℕ × ℕ)

pub data FieldKind : Type 0 where
  uint_field : Range → FieldKind
  bool_field : FieldKind
  enum_field : EnumDefinition → FieldKind
  decimal_field : ℕ → Range → FieldKind
  decimal_array_field : ℕ → FieldKind
  string_field swap_string_field version_field serial_number_field : FieldKind

pub record DeviceField : Type 0 where
  pub name : String
  pub address : ℕ
  pub size : ℕ
  pub kind : FieldKind

unfoldable pub enum_value_of : EnumDefinition → ℕ → ParsedValue
enum_value_of [] raw = enum_value (unknown raw) raw
enum_value_of ((name, value) ∷ entries) raw =
    if value == raw then enum_value (named name) value else enum_value_of entries raw

-- `(high << 8) | low`; both are bytes, so the fields do not overlap.
abbrev pub join_bytes : Option ℕ → Option ℕ → Result ℕ
join_bytes none low = throws range_error
join_bytes (some high) none = throws range_error
join_bytes (some high) (some low) = ok (high * 256 + low)

unfoldable pub read_uint16_big_endian : List ℕ → ℕ → Result ℕ
read_uint16_big_endian bytes offset =
    join_bytes (get_elem? bytes offset) (get_elem? bytes (suc offset))

-- The bytes before the first zero, the highest bit of each dropped.
unfoldable pub read_ascii : List ℕ → List ℕ
read_ascii [] = []
read_ascii (b ∷ bytes) = if b == 0 then [] else (b % 128) ∷ read_ascii bytes

-- The loop leaves an odd last byte where it is.
unfoldable pub swap_byte_pairs : List ℕ → List ℕ
swap_byte_pairs [] = []
swap_byte_pairs (current ∷ []) = current ∷ []
swap_byte_pairs (current ∷ next ∷ bytes) = next ∷ current ∷ swap_byte_pairs bytes

-- The loop of `DecimalArrayField.parse` from `index` on.
unfoldable pub read_words : ℕ → ℕ → List ℕ → Result (List ℕ)
unfolding read_uint16_big_endian
read_words zero index bytes = ok []
read_words (suc left) index bytes = do
  word ← read_uint16_big_endian bytes (index * 2)
  words ← read_words left (suc index) bytes
  ok (word ∷ words)

abbrev pub parse_kind : FieldKind → ℕ → List ℕ → Result ParsedValue
parse_kind (uint_field range) size bytes = do raw ← read_uint16_big_endian bytes 0; ok (number raw)
parse_kind bool_field size bytes = do raw ← read_uint16_big_endian bytes 0; ok (boolean (raw == 1))
parse_kind (enum_field entries) size bytes = do
  raw ← read_uint16_big_endian bytes 0
  ok (enum_value_of entries raw)
parse_kind (decimal_field scale range) size bytes = do
  raw ← read_uint16_big_endian bytes 0
  ok (quotient raw (10 ^ scale))
parse_kind (decimal_array_field scale) size bytes = do
  words ← read_words size 0 bytes
  ok (quotients words (10 ^ scale))
parse_kind string_field size bytes = ok (text (read_ascii bytes))
parse_kind swap_string_field size bytes = ok (text (read_ascii (swap_byte_pairs bytes)))
parse_kind version_field size bytes = do
  low ← read_uint16_big_endian bytes 0
  high ← read_uint16_big_endian bytes 2
  ok (quotient (low + high * 0x10000) 100)
parse_kind serial_number_field size bytes = do
  word0 ← read_uint16_big_endian bytes 0
  word1 ← read_uint16_big_endian bytes 2
  word2 ← read_uint16_big_endian bytes 4
  word3 ← read_uint16_big_endian bytes 6
  ok (bigint (word0 + word1 * 2 ^ 16 + word2 * 2 ^ 32 + word3 * 2 ^ 48))

unfoldable pub parse_field : DeviceField → List ℕ → Result ParsedValue
parse_field field bytes = parse_kind field.kind field.size bytes

-- `value >= range[0] && value <= range[1]` for the number raw / divisor; true with no range.
abbrev pub within : Range → ℕ → ℕ → Bool
within none raw divisor = true
within (some (low, high)) raw divisor = leb (low * divisor) raw && leb raw (high * divisor)

abbrev pub in_range_kind : FieldKind → ParsedValue → Bool
in_range_kind (uint_field range) (number raw) = within range raw 1
in_range_kind (decimal_field scale range) (quotient raw divisor) = within range raw divisor
in_range_kind _ _ = true

unfoldable pub is_in_range : DeviceField → ParsedValue → Bool
is_in_range field value = in_range_kind field.kind value
