-- ===== src/Devices/Tests.antt =====
-- The decoders, the setters and the names on concrete input.
use bluetti_mqtt_node.Common.{ℕ, String, ◌<◌, ◌≡◌, refl, true, Memᴰ, [], ◌∷◌, none, some, ◌↔◌, ◌%◌}
use bluetti_mqtt_node.Common.JsNumber.{nat}
use bluetti_mqtt_node.Errors.{error, range_error, ok, throws}
use bluetti_mqtt_node.Commands.{device_command, new_write_single_register, write_uint16_big_endian}
use bluetti_mqtt_node.Commands.Frames.{write_command}
use bluetti_mqtt_node.Devices.Field.{
  DeviceField, uint_field, string_field, parse_field, is_in_range, read_uint16_big_endian,
  number as a_number, enum_value, unknown, enum_value_of, read_ascii, swap_byte_pairs,
}
use bluetti_mqtt_node.Devices.Struct.{
  ParsedFieldMap, parse_fields, decode_into, is_outside, field_bytes, insert_field, parse_struct,
  DeviceStruct, lookup_field,
}
use bluetti_mqtt_node.Devices.Struct.Laws.{Reports, parse_struct-lookup}
use bluetti_mqtt_node.Devices.Struct.Total.{parse_struct_ok_iff}
use bluetti_mqtt_node.Devices.Builders.{auto_sleep_mode}
use bluetti_mqtt_node.Devices.Definition.{
  DeviceDefinition, ac300_definition, bluetti_definitions, new_bluetti_device_model,
}
use bluetti_mqtt_node.Devices.Device.{
  BluettiDevice, boolean, number, string, build_setter_command, build_setter, encode_value,
  enum_option, ReadWindow,
}
use bluetti_mqtt_node.Devices.Device.Setter.{Writable, Encodes, build_setter_command-Writes}
use bluetti_mqtt_node.Devices.Registry.{
  create_device_from_advertisement, match_models, exec_device_name_pattern,
}
use bluetti_mqtt_node.Devices.Registry.Match.{IsSerial, join}
use bluetti_mqtt_node.Devices.Registry.Laws.{create_device_iff}

abbrev ac300 : BluettiDevice
ac300 = new_bluetti_device_model "24:4C:AB:2C:24:8E" "2237000003358" ac300_definition

create_of_name :
    create_device_from_advertisement "24:4C:AB:2C:24:8E" "AC3002237000003358" ≡ ok ac300
unfolding create_device_from_advertisement exec_device_name_pattern match_models
create_of_name = refl

-- The name of the source's own example has a dash.
create_of_dashed_name :
    create_device_from_advertisement "24:4C:AB:2C:24:8E" "AC500-2237000003358" ≡ throws error
unfolding create_device_from_advertisement exec_device_name_pattern match_models
create_of_dashed_name = refl

set_ac_output : build_setter_command ac300 "ac_output_on" (boolean true) ≡ ok (write_command 3007 1)
unfolding build_setter_command build_setter encode_value new_write_single_register
    write_uint16_big_endian device_command
set_ac_output = refl

set_by_option :
    build_setter_command ac300 "auto_sleep_mode" (string "NEVER") ≡ ok (write_command 3061 5)
unfolding build_setter_command build_setter encode_value enum_option new_write_single_register
    write_uint16_big_endian device_command
set_by_option = refl

-- An inherited property is no known option, and no number.
set_by_inherited :
    build_setter_command ac300 "auto_sleep_mode" (string "constructor") ≡ throws range_error
unfolding build_setter_command build_setter encode_value enum_option new_write_single_register
    write_uint16_big_endian
set_by_inherited = refl

set_read_only : build_setter_command ac300 "pack_num_max" (number (nat 1)) ≡ throws error
unfolding build_setter_command
set_read_only = refl

swapped_text :
    read_ascii (swap_byte_pairs (67 ∷ 65 ∷ 48 ∷ 54 ∷ 0 ∷ 0 ∷ [])) ≡ 65 ∷ 67 ∷ 54 ∷ 48 ∷ []
unfolding read_ascii swap_byte_pairs
swapped_text = refl

unknown_option : enum_value_of auto_sleep_mode 7 ≡ enum_value (unknown 7) 7
unfolding enum_value_of
unknown_option = refl

create_device_iff_example :
    (create_device_from_advertisement "24:4C:AB:2C:24:8E" "AC3002237000003358" ≡ ok ac300) ↔ (
      (def : DeviceDefinition) × (serial : String) × Memᴰ def bluetti_definitions
      × IsSerial serial
      × ("AC3002237000003358" ≡ join def.type_name serial)
      × (ac300 ≡ new_bluetti_device_model "24:4C:AB:2C:24:8E" serial def))
create_device_iff_example = create_device_iff "24:4C:AB:2C:24:8E" "AC3002237000003358" ac300

build_setter_command-Writes_example :
    (field : DeviceField) × (raw : ℕ) × Memᴰ field ac300.struct
    × (field.name ≡ "ac_output_on")
    × Writable field.address ac300.writable_ranges
    × Encodes field.kind (boolean true) raw
    × (raw < 0x10000)
    × (field.address < 0x10000)
    × (write_command 3007 1 ≡ write_command field.address raw)
build_setter_command-Writes_example =
    build_setter_command-Writes ac300 "ac_output_on" (boolean true) (write_command 3007 1)
      set_ac_output

abbrev led_window : ReadWindow
led_window = record { starting_address = 3034; quantity = 1 }

abbrev two_pack_fields : DeviceStruct
two_pack_fields =
    record { name = "pack_num"; address = 96; size = 1; kind = uint_field none }
    ∷ record { name = "pack_num"; address = 97; size = 1; kind = uint_field none }
    ∷ []

abbrev second_pack_field : DeviceField
second_pack_field = record { name = "pack_num"; address = 97; size = 1; kind = uint_field none }

two_packs :
    parse_struct two_pack_fields 96 (0 ∷ 1 ∷ 0 ∷ 2 ∷ []) ≡ ok (("pack_num", a_number 2) ∷ [])
unfolding parse_struct parse_fields decode_into is_outside field_bytes parse_field is_in_range
    insert_field read_uint16_big_endian
two_packs = refl

second-Reports : Reports 96 (0 ∷ 1 ∷ 0 ∷ 2 ∷ []) second_pack_field (a_number 2)
unfolding Reports is_outside field_bytes parse_field is_in_range read_uint16_big_endian
second-Reports = (refl, refl, refl)

parse_struct-lookup_example :
    lookup_field "pack_num" (("pack_num", a_number 2) ∷ []) ≡ some (a_number 2)
parse_struct-lookup_example =
    parse_struct-lookup 96 (0 ∷ 1 ∷ 0 ∷ 2 ∷ [])
      (record { name = "pack_num"; address = 96; size = 1; kind = uint_field none } ∷ []) []
      second_pack_field (a_number 2) (("pack_num", a_number 2) ∷ []) two_packs second-Reports tt

parse_struct_ok_iff_example :
    ((parsed : ParsedFieldMap) × (parse_struct two_pack_fields 96 (0 ∷ 1 ∷ 0 ∷ []) ≡ ok parsed))
    ↔ (3 % 2 ≡ 0)
parse_struct_ok_iff_example =
    parse_struct_ok_iff two_pack_fields 96 (0 ∷ 1 ∷ 0 ∷ []) (refl, (refl, tt))

abbrev power_field : DeviceField
power_field = record { name = "device_type"; address = 10; size = 6; kind = string_field }
