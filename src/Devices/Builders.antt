-- ===== src/Devices/Builders.antt =====
-- src/devices/enums.ts and src/devices/device-builders.ts: the enums, the two shared groups of
-- fields and the register layout of each product family.
use bluetti_mqtt_node.Common.{ℕ, List, [], ◌∷◌, none, some, String}
use bluetti_mqtt_node.Devices.Field.{
  DeviceField, EnumDefinition, uint_field, bool_field, enum_field, string_field, version_field,
  serial_number_field,
}
use bluetti_mqtt_node.Devices.Struct.{
  DeviceStruct, add_many, add_uint_field, add_bool_field, add_enum_field, add_decimal_field,
  add_decimal_array_field, add_swap_string_field, add_version_field, add_serial_number_field,
}

-- The chain of methods.
infixl 5 ◌|>◌
abbrev ◌|>◌ : DeviceStruct → (DeviceStruct → DeviceStruct) → DeviceStruct
fields |> add = add fields

-- The fields that the constructors of the subclasses make.
abbrev new_uint_field : String → ℕ → DeviceField
new_uint_field name address = record {
  name = name;
  address = address;
  size = 1;
  kind = uint_field none;
}

abbrev new_bool_field : String → ℕ → DeviceField
new_bool_field name address = record { name = name; address = address; size = 1; kind = bool_field }

abbrev new_enum_field : String → ℕ → EnumDefinition → DeviceField
new_enum_field name address entries = record {
  name = name;
  address = address;
  size = 1;
  kind = enum_field entries;
}

abbrev new_string_field : String → ℕ → ℕ → DeviceField
new_string_field name address size = record {
  name = name;
  address = address;
  size = size;
  kind = string_field;
}

abbrev new_version_field : String → ℕ → DeviceField
new_version_field name address = record {
  name = name;
  address = address;
  size = 2;
  kind = version_field;
}

abbrev new_serial_number_field : String → ℕ → DeviceField
new_serial_number_field name address = record {
  name = name;
  address = address;
  size = 4;
  kind = serial_number_field;
}

abbrev pub output_mode : EnumDefinition
output_mode =
    ("STOP", 0)
    ∷ ("INVERTER_OUTPUT", 1)
    ∷ ("BYPASS_OUTPUT_C", 2)
    ∷ ("BYPASS_OUTPUT_D", 3)
    ∷ ("LOAD_MATCHING", 4)
    ∷ []

abbrev pub battery_state : EnumDefinition
battery_state = ("STANDBY", 0) ∷ ("CHARGE", 1) ∷ ("DISCHARGE", 2) ∷ []

abbrev pub ups_mode : EnumDefinition
ups_mode = ("CUSTOMIZED", 1) ∷ ("PV_PRIORITY", 2) ∷ ("STANDARD", 3) ∷ ("TIME_CONTROL", 4) ∷ []

abbrev pub machine_address : EnumDefinition
machine_address = ("SLAVE", 0) ∷ ("MASTER", 1) ∷ []

abbrev pub auto_sleep_mode : EnumDefinition
auto_sleep_mode =
    ("THIRTY_SECONDS", 2) ∷ ("ONE_MINUTE", 3) ∷ ("FIVE_MINUTES", 4) ∷ ("NEVER", 5) ∷ []

abbrev pub led_mode : EnumDefinition
led_mode = ("LOW", 1) ∷ ("HIGH", 2) ∷ ("SOS", 3) ∷ ("OFF", 4) ∷ []

abbrev pub eco_shutdown : EnumDefinition
eco_shutdown = ("ONE_HOUR", 1) ∷ ("TWO_HOURS", 2) ∷ ("THREE_HOURS", 3) ∷ ("FOUR_HOURS", 4) ∷ []

abbrev pub charging_mode : EnumDefinition
charging_mode = ("STANDARD", 0) ∷ ("SILENT", 1) ∷ ("TURBO", 2) ∷ []

abbrev pub core_fields : List DeviceField
core_fields =
    new_string_field "device_type" 10 6
    ∷ new_serial_number_field "serial_number" 17
    ∷ new_version_field "arm_version" 23
    ∷ new_version_field "dsp_version" 25
    ∷ new_uint_field "dc_input_power" 36
    ∷ new_uint_field "ac_input_power" 37
    ∷ new_uint_field "ac_output_power" 38
    ∷ new_uint_field "dc_output_power" 39
    ∷ new_uint_field "total_battery_percent" 43
    ∷ new_bool_field "ac_output_on" 48
    ∷ new_bool_field "dc_output_on" 49
    ∷ new_uint_field "pack_num_max" 91
    ∷ []

abbrev pub control_fields : List DeviceField
control_fields =
    new_enum_field "ups_mode" 3001 ups_mode
    ∷ new_bool_field "split_phase_on" 3004
    ∷ new_enum_field "split_phase_machine_mode" 3005 machine_address
    ∷ new_uint_field "pack_num" 3006
    ∷ new_bool_field "ac_output_on" 3007
    ∷ new_bool_field "dc_output_on" 3008
    ∷ new_bool_field "grid_charge_on" 3011
    ∷ new_bool_field "time_control_on" 3013
    ∷ new_uint_field "battery_range_start" 3015
    ∷ new_uint_field "battery_range_end" 3016
    ∷ new_bool_field "bluetooth_connected" 3036
    ∷ new_enum_field "auto_sleep_mode" 3061 auto_sleep_mode
    ∷ []

abbrev pub build_ac200m_struct : DeviceStruct
build_ac200m_struct =
    []
    |> add_many core_fields
    |> add_decimal_field "power_generation" 41 1 none
    |> add_enum_field "ac_output_mode" 70 output_mode
    |> add_uint_field "internal_ac_voltage" 71 none
    |> add_decimal_field "internal_current_one" 72 1 none
    |> add_uint_field "internal_power_one" 73 none
    |> add_decimal_field "internal_ac_frequency" 74 1 none
    |> add_uint_field "internal_dc_input_voltage" 86 none
    |> add_decimal_field "internal_dc_input_power" 87 1 none
    |> add_decimal_field "internal_dc_input_current" 88 2 none
    |> add_decimal_field "total_battery_voltage" 92 2 none
    |> add_uint_field "pack_num" 96 none
    |> add_decimal_field "pack_voltage" 98 2 none
    |> add_uint_field "pack_battery_percent" 99 none
    |> add_decimal_array_field "cell_voltages" 105 16 2
    |> add_uint_field "pack_num" 3006 none
    |> add_bool_field "ac_output_on" 3007
    |> add_bool_field "dc_output_on" 3008
    |> add_bool_field "power_off" 3060
    |> add_enum_field "auto_sleep_mode" 3061 auto_sleep_mode

abbrev pub build_ac300_struct : DeviceStruct
build_ac300_struct =
    []
    |> add_many core_fields
    |> add_decimal_field "power_generation" 41 1 none
    |> add_enum_field "ac_output_mode" 70 output_mode
    |> add_decimal_field "internal_ac_voltage" 71 1 none
    |> add_decimal_field "internal_current_one" 72 1 none
    |> add_uint_field "internal_power_one" 73 none
    |> add_decimal_field "internal_ac_frequency" 74 2 none
    |> add_decimal_field "internal_current_two" 75 1 none
    |> add_uint_field "internal_power_two" 76 none
    |> add_decimal_field "ac_input_voltage" 77 1 none
    |> add_decimal_field "internal_current_three" 78 1 (some (0, 100))
    |> add_uint_field "internal_power_three" 79 none
    |> add_decimal_field "ac_input_frequency" 80 2 none
    |> add_decimal_field "aux_dc_voltage" 83 1 none
    |> add_decimal_field "aux_dc_current" 84 1 none
    |> add_uint_field "aux_dc_power" 85 none
    |> add_decimal_field "internal_dc_input_voltage" 86 1 none
    |> add_uint_field "internal_dc_input_power" 87 none
    |> add_decimal_field "internal_dc_input_current" 88 1 (some (0, 15))
    |> add_decimal_field "total_battery_voltage" 92 1 none
    |> add_decimal_field "total_battery_current" 93 1 none
    |> add_uint_field "pack_num" 96 none
    |> add_enum_field "pack_status" 97 battery_state
    |> add_decimal_field "pack_voltage" 98 2 none
    |> add_uint_field "pack_battery_percent" 99 none
    |> add_decimal_array_field "cell_voltages" 105 16 2
    |> add_version_field "pack_bms_version" 201
    |> add_decimal_field "dc_input_1_voltage" 163 1 none
    |> add_uint_field "dc_input_1_power" 165 none
    |> add_decimal_field "dc_input_2_voltage" 170 1 none
    |> add_uint_field "dc_input_2_power" 172 none
    |> add_many control_fields

abbrev pub build_ac500_struct : DeviceStruct
build_ac500_struct =
    []
    |> add_many core_fields
    |> add_decimal_field "power_generation" 41 1 none
    |> add_enum_field "ac_output_mode" 70 output_mode
    |> add_decimal_field "internal_ac_voltage" 71 1 none
    |> add_decimal_field "internal_current_one" 72 1 none
    |> add_uint_field "internal_power_one" 73 none
    |> add_decimal_field "internal_ac_frequency" 74 2 none
    |> add_decimal_field "internal_current_two" 75 1 none
    |> add_uint_field "internal_power_two" 76 none
    |> add_decimal_field "ac_input_voltage" 77 1 none
    |> add_decimal_field "internal_current_three" 78 1 none
    |> add_uint_field "internal_power_three" 79 none
    |> add_decimal_field "ac_input_frequency" 80 2 none
    |> add_decimal_field "aux_dc_voltage" 83 1 none
    |> add_decimal_field "aux_dc_current" 84 1 none
    |> add_uint_field "aux_dc_power" 85 none
    |> add_decimal_field "internal_dc_input_voltage" 86 1 none
    |> add_uint_field "internal_dc_input_power" 87 none
    |> add_decimal_field "internal_dc_input_current" 88 1 none
    |> add_decimal_field "total_battery_voltage" 92 1 none
    |> add_decimal_field "total_battery_current" 93 1 none
    |> add_uint_field "pack_num" 96 none
    |> add_decimal_field "pack_voltage" 98 2 none
    |> add_uint_field "pack_battery_percent" 99 none
    |> add_decimal_array_field "cell_voltages" 105 16 2
    |> add_decimal_field "dc_input_1_voltage" 163 1 none
    |> add_uint_field "dc_input_1_power" 165 none
    |> add_decimal_field "dc_input_2_voltage" 170 1 none
    |> add_uint_field "dc_input_2_power" 172 none
    |> add_many control_fields

abbrev pub build_ac60_struct : DeviceStruct
build_ac60_struct =
    []
    |> add_uint_field "total_battery_percent" 102 none
    |> add_swap_string_field "device_type" 110 6
    |> add_serial_number_field "serial_number" 116
    |> add_decimal_field "power_generation" 154 1 none
    |> add_swap_string_field "device_type" 1101 6
    |> add_serial_number_field "serial_number" 1107
    |> add_decimal_field "power_generation" 1202 1 none
    |> add_swap_string_field "battery_type" 6101 6
    |> add_serial_number_field "battery_serial_number" 6107
    |> add_version_field "bcu_version" 6175

abbrev pub build_eb3a_struct : DeviceStruct
build_eb3a_struct =
    []
    |> add_many core_fields
    |> add_decimal_field "ac_input_voltage" 77 1 none
    |> add_decimal_field "internal_dc_input_voltage" 86 2 none
    |> add_bool_field "ac_output_on" 3007
    |> add_bool_field "dc_output_on" 3008
    |> add_enum_field "led_mode" 3034 led_mode
    |> add_bool_field "power_off" 3060
    |> add_bool_field "eco_on" 3063
    |> add_enum_field "eco_shutdown" 3064 eco_shutdown
    |> add_enum_field "charging_mode" 3065 charging_mode
    |> add_bool_field "power_lifting_on" 3066

abbrev pub build_ep500_struct : DeviceStruct
build_ep500_struct =
    []
    |> add_many core_fields
    |> add_decimal_field "power_generation" 41 1 none
    |> add_enum_field "ac_output_mode" 70 output_mode
    |> add_decimal_field "internal_ac_voltage" 71 1 none
    |> add_decimal_field "internal_current_one" 72 1 none
    |> add_uint_field "internal_power_one" 73 none
    |> add_decimal_field "internal_ac_frequency" 74 2 none
    |> add_decimal_field "internal_current_two" 75 1 none
    |> add_uint_field "internal_power_two" 76 none
    |> add_decimal_field "ac_input_voltage" 77 1 none
    |> add_decimal_field "internal_current_three" 78 1 none
    |> add_uint_field "internal_power_three" 79 none
    |> add_decimal_field "ac_input_frequency" 80 2 none
    |> add_decimal_field "internal_dc_input_voltage" 86 1 none
    |> add_uint_field "internal_dc_input_power" 87 none
    |> add_decimal_field "internal_dc_input_current" 88 1 (some (0, 15))
    |> add_decimal_field "total_battery_voltage" 92 1 none
    |> add_decimal_field "pack_voltage" 92 1 none
    |> add_uint_field "pack_battery_percent" 94 none
    |> add_uint_field "pack_num" 96 none
    |> add_decimal_array_field "cell_voltages" 105 16 2
    |> add_many control_fields

abbrev pub build_ep600_struct : DeviceStruct
build_ep600_struct =
    []
    |> add_uint_field "total_battery_percent" 102 none
    |> add_swap_string_field "device_type" 110 6
    |> add_serial_number_field "serial_number" 116
    |> add_decimal_field "power_generation" 154 1 none
    |> add_swap_string_field "device_type" 1101 6
    |> add_serial_number_field "serial_number" 1107
    |> add_decimal_field "power_generation" 1202 1 none
    |> add_uint_field "battery_range_start" 2022 none
    |> add_uint_field "battery_range_end" 2023 none
    |> add_uint_field "max_ac_input_power" 2213 none
    |> add_uint_field "max_ac_input_current" 2214 none
    |> add_uint_field "max_ac_output_power" 2215 none
    |> add_uint_field "max_ac_output_current" 2216 none
    |> add_swap_string_field "battery_type" 6101 6
    |> add_serial_number_field "battery_serial_number" 6107
    |> add_version_field "bcu_version" 6175
    |> add_version_field "bmu_version" 6178
    |> add_version_field "safety_module_version" 6181
    |> add_version_field "high_voltage_module_version" 6184
