-- ===== src/Devices/Definition.antt =====
-- src/devices/definition.ts: the table of the supported product families. A command of the table
-- is kept as the two arguments of its constructor.
pub mod Laws
use bluetti_mqtt_node.Common.{ℕ, List, [], ◌∷◌, Option, none, some, String, if◌then◌else◌}
use text.Mathlib.Text.{◌==◌ as str_eq}
use bluetti_mqtt_node.Devices.Device.{ReadWindow, WritableRange, BluettiDevice}
use bluetti_mqtt_node.Devices.Struct.{DeviceStruct}
use bluetti_mqtt_node.Devices.Builders.{
  build_ac200m_struct, build_ac300_struct, build_ac500_struct, build_ac60_struct, build_eb3a_struct,
  build_ep500_struct, build_ep600_struct,
}

pub record DeviceDefinition : Type 0 where
  pub type_name : String
  pub pack_num_max : ℕ
  pub polling_commands : List ReadWindow
  pub pack_polling_commands : Option (List ReadWindow)
  pub logging_commands : List ReadWindow
  pub pack_logging_commands : Option (List ReadWindow)
  pub writable_ranges : Option (List WritableRange)
  pub build_struct : DeviceStruct

abbrev read : ℕ → ℕ → ReadWindow
read starting_address quantity = record { starting_address = starting_address; quantity = quantity }

abbrev pub ac200m_definition : DeviceDefinition
ac200m_definition = record {
  type_name = "AC200M";
  pack_num_max = 3;
  polling_commands = read 10 40 ∷ read 70 21 ∷ read 3001 61 ∷ [];
  pack_polling_commands = some (read 91 37 ∷ []);
  logging_commands = read 0 70 ∷ read 70 21 ∷ read 3001 61 ∷ [];
  pack_logging_commands = some (read 91 119 ∷ []);
  writable_ranges = some (record { start = 3000; end_exclusive = 3062 } ∷ []);
  build_struct = build_ac200m_struct;
}

abbrev pub ac300_definition : DeviceDefinition
ac300_definition = record {
  type_name = "AC300";
  pack_num_max = 4;
  polling_commands = read 10 40 ∷ read 70 90 ∷ read 160 46 ∷ read 3001 61 ∷ [];
  pack_polling_commands = some (read 91 37 ∷ []);
  logging_commands = read 0 70 ∷ read 70 90 ∷ read 160 46 ∷ read 3000 62 ∷ [];
  pack_logging_commands = some (read 91 119 ∷ []);
  writable_ranges = some (record { start = 3000; end_exclusive = 3062 } ∷ []);
  build_struct = build_ac300_struct;
}

abbrev pub ac500_definition : DeviceDefinition
ac500_definition = record {
  type_name = "AC500";
  pack_num_max = 6;
  polling_commands = read 10 40 ∷ read 70 90 ∷ read 160 46 ∷ read 3001 61 ∷ [];
  pack_polling_commands = some (read 91 37 ∷ []);
  logging_commands = read 0 70 ∷ read 70 90 ∷ read 160 46 ∷ read 3000 62 ∷ [];
  pack_logging_commands = some (read 91 119 ∷ []);
  writable_ranges = some (record { start = 3000; end_exclusive = 3062 } ∷ []);
  build_struct = build_ac500_struct;
}

abbrev pub ac60_definition : DeviceDefinition
ac60_definition = record {
  type_name = "AC60";
  pack_num_max = 1;
  polling_commands = read 100 62 ∷ [];
  pack_polling_commands = none;
  logging_commands =
      read 100 62
      ∷ read 1100 51
      ∷ read 1200 90
      ∷ read 1300 31
      ∷ read 1400 48
      ∷ read 1500 30
      ∷ read 2000 67
      ∷ read 2200 29
      ∷ read 6000 31
      ∷ read 6100 100
      ∷ read 6300 52
      ∷ [];
  pack_logging_commands = none;
  writable_ranges = none;
  build_struct = build_ac60_struct;
}

abbrev pub eb3a_definition : DeviceDefinition
eb3a_definition = record {
  type_name = "EB3A";
  pack_num_max = 1;
  polling_commands = read 10 40 ∷ read 70 21 ∷ read 3034 1 ∷ read 3060 7 ∷ [];
  pack_polling_commands = none;
  logging_commands = read 10 53 ∷ read 70 66 ∷ read 136 74 ∷ read 3000 67 ∷ [];
  pack_logging_commands = none;
  writable_ranges = some (record { start = 3000; end_exclusive = 3067 } ∷ []);
  build_struct = build_eb3a_struct;
}

abbrev pub ep500_definition : DeviceDefinition
ep500_definition = record {
  type_name = "EP500";
  pack_num_max = 1;
  polling_commands = read 10 40 ∷ read 70 21 ∷ read 3001 61 ∷ [];
  pack_polling_commands = some (read 91 37 ∷ []);
  logging_commands = read 0 70 ∷ read 70 21 ∷ read 3001 61 ∷ [];
  pack_logging_commands = some (read 91 119 ∷ []);
  writable_ranges = some (record { start = 3000; end_exclusive = 3062 } ∷ []);
  build_struct = build_ep500_struct;
}

abbrev pub ep500p_definition : DeviceDefinition
ep500p_definition = record {
  type_name = "EP500P";
  pack_num_max = 1;
  polling_commands = read 10 40 ∷ read 70 21 ∷ read 3001 61 ∷ [];
  pack_polling_commands = some (read 91 37 ∷ []);
  logging_commands = read 0 70 ∷ read 70 21 ∷ read 3001 61 ∷ [];
  pack_logging_commands = some (read 91 119 ∷ []);
  writable_ranges = some (record { start = 3000; end_exclusive = 3062 } ∷ []);
  build_struct = build_ep500_struct;
}

abbrev pub ep600_definition : DeviceDefinition
ep600_definition = record {
  type_name = "EP600";
  pack_num_max = 1;
  polling_commands = read 100 62 ∷ read 2022 2 ∷ [];
  pack_polling_commands = none;
  logging_commands =
      read 100 62
      ∷ read 1100 51
      ∷ read 1200 90
      ∷ read 1300 31
      ∷ read 1400 48
      ∷ read 1500 30
      ∷ read 2000 89
      ∷ read 2200 41
      ∷ read 2300 36
      ∷ read 6000 32
      ∷ read 6100 100
      ∷ read 6300 100
      ∷ [];
  pack_logging_commands = none;
  writable_ranges = none;
  build_struct = build_ep600_struct;
}

abbrev pub bluetti_definitions : List DeviceDefinition
bluetti_definitions =
    ac200m_definition ∷ ac300_definition ∷ ac500_definition ∷ ac60_definition ∷ eb3a_definition
    ∷ ep500_definition ∷ ep500p_definition ∷ ep600_definition ∷ []

-- `BLUETTI_DEFINITION_MAP.get(model)` on the entries of the table; no two have one name.
abbrev pub definition_in : List DeviceDefinition → String → Option DeviceDefinition
definition_in [] model = none
definition_in (def ∷ defs) model =
    if str_eq def.type_name model then some def else definition_in defs model

-- `list ?? []`.
abbrev pub or_empty {ℓ} : {A : Type ℓ} → Option (List A) → List A
or_empty none = []
or_empty (some list) = list

abbrev pub new_bluetti_device_model : String → String → DeviceDefinition → BluettiDevice
new_bluetti_device_model address serial_number def = record {
  address = address;
  type_name = def.type_name;
  serial_number = serial_number;
  struct = def.build_struct;
  pack_num_max = def.pack_num_max;
  polling_commands = def.polling_commands;
  pack_polling_commands = or_empty def.pack_polling_commands;
  logging_commands = def.logging_commands;
  pack_logging_commands = or_empty def.pack_logging_commands;
  writable_ranges = or_empty def.writable_ranges;
}
