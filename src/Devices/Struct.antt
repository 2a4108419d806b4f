-- ===== src/Devices/Struct.antt =====
-- src/devices/struct.ts: a list of fields, the methods that add to it, and `parse`.
pub mod Laws
pub mod Total
use bluetti_mqtt_node.Common.{
  ℕ, zero, suc, ◌+◌, ◌-◌, ◌*◌, ◌/◌, ◌%◌, Bool, true, false, not, ◌||◌, List, [], ◌∷◌, ◌++◌, length,
  take, drop, ltb, ◌==◌, if◌then◌else◌, Option, none, some, String,
}
use text.Mathlib.Text.{◌==◌ as str_eq}
use bluetti_mqtt_node.Errors.{range_error, Result, ok, throws, ◌>>=◌}
use bluetti_mqtt_node.Devices.Field.{
  DeviceField, FieldKind, EnumDefinition, Range, uint_field, bool_field, enum_field, decimal_field,
  decimal_array_field, string_field, swap_string_field, version_field, serial_number_field,
  ParsedValue, parse_field, is_in_range,
}

abbrev pub DeviceStruct : Type 0
DeviceStruct = List DeviceField

-- `this.fields.push(…)`.
abbrev pub add_field : String → ℕ → ℕ → FieldKind → DeviceStruct → DeviceStruct
add_field name address size kind fields =
    fields ++ record { name = name; address = address; size = size; kind = kind } ∷ []

abbrev pub add_many : List DeviceField → DeviceStruct → DeviceStruct
add_many more fields = fields ++ more

abbrev pub add_uint_field : String → ℕ → Range → DeviceStruct → DeviceStruct
add_uint_field name address range = add_field name address 1 (uint_field range)

abbrev pub add_bool_field : String → ℕ → DeviceStruct → DeviceStruct
add_bool_field name address = add_field name address 1 bool_field

abbrev pub add_enum_field : String → ℕ → EnumDefinition → DeviceStruct → DeviceStruct
add_enum_field name address entries = add_field name address 1 (enum_field entries)

abbrev pub add_decimal_field : String → ℕ → ℕ → Range → DeviceStruct → DeviceStruct
add_decimal_field name address scale range = add_field name address 1 (decimal_field scale range)

abbrev pub add_decimal_array_field : String → ℕ → ℕ → ℕ → DeviceStruct → DeviceStruct
add_decimal_array_field name address size scale =
    add_field name address size (decimal_array_field scale)

abbrev pub add_string_field : String → ℕ → ℕ → DeviceStruct → DeviceStruct
add_string_field name address size = add_field name address size string_field

abbrev pub add_swap_string_field : String → ℕ → ℕ → DeviceStruct → DeviceStruct
add_swap_string_field name address size = add_field name address size swap_string_field

abbrev pub add_version_field : String → ℕ → DeviceStruct → DeviceStruct
add_version_field name address = add_field name address 2 version_field

abbrev pub add_serial_number_field : String → ℕ → DeviceStruct → DeviceStruct
add_serial_number_field name address = add_field name address 4 serial_number_field

-- `ParsedFieldMap`: names and values in the order of insertion.
abbrev pub ParsedFieldMap : Type 0
ParsedFieldMap = List (String × ParsedValue)

-- `parsed[name] = value`.
unfoldable pub insert_field : String → ParsedValue → ParsedFieldMap → ParsedFieldMap
insert_field name value [] = (name, value) ∷ []
insert_field name value ((key, old) ∷ parsed) =
    if str_eq key name then (key, value) ∷ parsed else (key, old) ∷ insert_field name value parsed

pub lookup_field : String → ParsedFieldMap → Option ParsedValue
lookup_field name [] = none
lookup_field name ((key, value) ∷ parsed) =
    if str_eq key name then some value else lookup_field name parsed

-- The field's registers lie outside the window.
unfoldable pub is_outside : ℕ → ℕ → DeviceField → Bool
is_outside start count field =
    ltb field.address start || ltb (start + count) (field.address + field.size)

-- `data.slice(byteStart, byteEnd)`.
unfoldable pub field_bytes : ℕ → List ℕ → DeviceField → List ℕ
field_bytes start bytes field = take (field.size * 2) (drop ((field.address - start) * 2) bytes)

-- One round of the loop of `parse`.
unfoldable pub decode_into : ℕ → List ℕ → DeviceField → ParsedFieldMap → Result ParsedFieldMap
unfolding is_outside field_bytes
decode_into start bytes field parsed =
    if is_outside start (length bytes / 2) field then ok parsed else do
      value ← parse_field field (field_bytes start bytes field)
      ok (if is_in_range field value then insert_field field.name value parsed else parsed)

unfoldable pub parse_fields : ℕ → List ℕ → List DeviceField → ParsedFieldMap → Result ParsedFieldMap
parse_fields start bytes [] parsed = ok parsed
parse_fields start bytes (field ∷ fields) parsed = do
  parsed' ← decode_into start bytes field parsed
  parse_fields start bytes fields parsed'

unfoldable pub parse_struct : DeviceStruct → ℕ → List ℕ → Result ParsedFieldMap
parse_struct fields start bytes =
    if not (length bytes % 2 == 0) then throws range_error else parse_fields start bytes fields []
