-- ===== src/Devices/Device.antt =====
-- src/devices/device.ts and the writable ranges of src/core/types.ts. The abstract class with its
-- getters is a record; the getters that call other getters are functions of it.
pub mod Setter
use bluetti_mqtt_node.Common.{
  ℕ, zero, suc, ◌+◌, Bool, true, false, not, ◌&&◌, ◌||◌, List, [], ◌∷◌, ◌++◌, length, take, drop,
  leb, ltb, if◌then◌else◌, Option, none, some, String,
}
use text.Mathlib.Text.{◌==◌ as str_eq}
use bluetti_mqtt_node.Common.JsNumber.{JsNumber, nat, neg, frac, not_finite, is_integer}
use bluetti_mqtt_node.Errors.{error, Result, ok, throws, ◌>>=◌}
use bluetti_mqtt_node.Commands.{DeviceCommand, new_write_single_register}
use bluetti_mqtt_node.Devices.Field.{
  DeviceField, FieldKind, EnumDefinition, ParsedValue, uint_field, bool_field, enum_field,
}
use bluetti_mqtt_node.Devices.Struct.{DeviceStruct, ParsedFieldMap, parse_struct}

-- A half-open range of addresses.
pub record WritableRange : Type 0 where
  pub start : ℕ
  pub end_exclusive : ℕ

-- The arguments of `new ReadHoldingRegisters(startingAddress, quantity)`.
pub record ReadWindow : Type 0 where
  pub starting_address : ℕ
  pub quantity : ℕ

pub record BluettiDevice : Type 0 where
  pub address : String
  pub type_name : String
  pub serial_number : String
  pub struct : DeviceStruct
  pub pack_num_max : ℕ
  pub polling_commands : List ReadWindow
  pub pack_polling_commands : List ReadWindow
  pub logging_commands : List ReadWindow
  pub pack_logging_commands : List ReadWindow
  pub writable_ranges : List WritableRange

abbrev pub is_address_writable : ℕ → List WritableRange → Bool
is_address_writable address [] = false
is_address_writable address (range ∷ ranges) =
    (leb range.start address && ltb address range.end_exclusive)
    || is_address_writable address ranges

abbrev pub parse : BluettiDevice → ℕ → List ℕ → Result ParsedFieldMap
parse device address bytes = parse_struct device.struct address bytes

abbrev pub fast_polling_commands : BluettiDevice → List ReadWindow
fast_polling_commands device = take 1 device.polling_commands

abbrev pub slow_polling_commands : BluettiDevice → List ReadWindow
slow_polling_commands device = drop (length (fast_polling_commands device)) device.polling_commands

abbrev pub any_named : String → List DeviceField → Bool
any_named name [] = false
any_named name (field ∷ fields) = str_eq field.name name || any_named name fields

abbrev pub has_field : BluettiDevice → String → Bool
has_field device name = any_named name device.struct

-- The test that `some` and `find` make on a field.
abbrev pub is_setter : List WritableRange → String → DeviceField → Bool
is_setter ranges name field = str_eq field.name name && is_address_writable field.address ranges

abbrev pub any_setter : List WritableRange → String → List DeviceField → Bool
any_setter ranges name [] = false
any_setter ranges name (field ∷ fields) =
    is_setter ranges name field || any_setter ranges name fields

abbrev pub has_field_setter : BluettiDevice → String → Bool
has_field_setter device name = any_setter device.writable_ranges name device.struct

abbrev pub find_setter : List WritableRange → String → List DeviceField → Option DeviceField
find_setter ranges name [] = none
find_setter ranges name (field ∷ fields) =
    if is_setter ranges name field then some field else find_setter ranges name fields

pub data SetterValue : Type 0 where
  boolean : Bool → SetterValue
  number : JsNumber → SetterValue
  string : String → SetterValue

-- What every object inherits from `Object.prototype`.
abbrev pub object_prototype_names : List String
object_prototype_names =
    "constructor" ∷ "toString" ∷ "toLocaleString" ∷ "valueOf" ∷ "hasOwnProperty" ∷ "isPrototypeOf"
    ∷ "propertyIsEnumerable" ∷ "__proto__" ∷ "__defineGetter__" ∷ "__defineSetter__"
    ∷ "__lookupGetter__" ∷ "__lookupSetter__" ∷ []

abbrev pub any_string : String → List String → Bool
any_string name [] = false
any_string name (other ∷ names) = str_eq other name || any_string name names

-- `enumDefinition[value]`: the number of an own property, or an inherited value, which is no
-- number, or `undefined`.
unfoldable pub enum_option : EnumDefinition → String → Option JsNumber
enum_option [] name =
    if any_string name object_prototype_names then some (frac not_finite) else none
enum_option ((key, value) ∷ entries) name =
    if str_eq key name then some (nat value) else enum_option entries name

abbrev pub known_option : Option JsNumber → Result JsNumber
known_option none = throws error
known_option (some value) = ok value

abbrev pub integer_value : JsNumber → Result JsNumber
integer_value value = if is_integer value then ok value else throws error

-- The branches of `buildSetterCommand` on the field's class and the value's type.
unfoldable pub encode_value : FieldKind → SetterValue → Result JsNumber
unfolding enum_option
encode_value (enum_field entries) (number value) = ok value
encode_value (enum_field entries) (string value) = known_option (enum_option entries value)
encode_value (enum_field entries) (boolean value) = throws error
encode_value bool_field (boolean value) = ok (nat (if value then 1 else 0))
encode_value bool_field (number value) = throws error
encode_value bool_field (string value) = throws error
encode_value _ (number value) = integer_value value
encode_value _ (boolean value) = throws error
encode_value _ (string value) = throws error

unfoldable pub build_setter : Option DeviceField → SetterValue → Result DeviceCommand
unfolding encode_value new_write_single_register
build_setter none value = throws error
build_setter (some field) value = do
  encoded ← encode_value field.kind value
  new_write_single_register (nat field.address) encoded

unfoldable pub build_setter_command : BluettiDevice → String → SetterValue → Result DeviceCommand
unfolding build_setter
build_setter_command device name value =
    build_setter (find_setter device.writable_ranges name device.struct) value
