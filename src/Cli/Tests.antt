-- ===== src/Cli/Tests.antt =====
-- Tests of the command line's work on one device and of its configuration file, and of an address.
use bluetti_mqtt_node.Common.{ℕ, ◌≡◌, ◌↔◌, refl, Bool, true, false, [], none, some}
use bluetti_mqtt_node.Common.JsNumber.{nat}
use bluetti_mqtt_node.Errors.{error, Result, ok, throws}
use bluetti_mqtt_node.Devices.Device.{BluettiDevice}
use bluetti_mqtt_node.Devices.Registry.{
  create_device_from_advertisement, exec_device_name_pattern, match_models,
}
use bluetti_mqtt_node.Helper.Json.{Fields, string, number, object, array, end, field, empty}
use bluetti_mqtt_node.Cli.Shared.{
  DeviceCalls, attempt, concluded, cleanup, with_connected_device, Released,
  with_connected_device-Released,
}
use bluetti_mqtt_node.Cli.Args.{
  parsed, usage_error, validate_bluetooth_address, to_upper_case, trim_start, trim_end,
  pairs_pattern, digits_pattern, has_char, with_colons, without_hyphens, joined_pairs,
}
use bluetti_mqtt_node.Cli.Args.Laws.{IsCanonical, validate_bluetooth_address-IsCanonical}
use bluetti_mqtt_node.Cli.Config.{
  CliConfigFile, times_1000, read_config_file, config_of_fields, require_config_string, is_blank,
}
use bluetti_mqtt_node.Cli.Config.Described.{Describes}
use bluetti_mqtt_node.Cli.Config.Laws.{read_config_file_iff}

-- The world says whether the client was disposed of. The transport cannot be disconnected.
abbrev stuck : DeviceCalls Bool
stuck = record {
  connect = λ world. (ok tt, world);
  name = λ world. some "AC3002237000003358";
  disconnect = λ world. (throws error, world);
  dispose = λ world. true;
  perform = λ command world. (ok [], world);
}

abbrev no_work : BluettiDevice → Bool → Result ℕ × Bool
no_work device world = (ok 1, world)

-- The client is left: the work succeeded, the disconnection did not.
client_is_left :
    with_connected_device stuck "24:4C:AB:2C:24:8E" no_work false ≡ (throws error, false)
unfolding with_connected_device attempt concluded cleanup exec_device_name_pattern match_models
    create_device_from_advertisement
client_is_left = refl

with_connected_device-Released_example :
    Released stuck "24:4C:AB:2C:24:8E" no_work
      (attempt stuck "24:4C:AB:2C:24:8E" no_work false)
      (with_connected_device stuck "24:4C:AB:2C:24:8E" no_work false)
with_connected_device-Released_example =
    with_connected_device-Released stuck "24:4C:AB:2C:24:8E" no_work false

abbrev empty_config : CliConfigFile
empty_config = record {
  broker = none;
  username = none;
  password = none;
  tls = none;
  interval = none;
  once = none;
  addresses = none;
  log_level = none;
}

-- The text `[]` is taken for a configuration.
array_is_accepted : read_config_file (some (some (array end))) ≡ some empty_config
unfolding read_config_file config_of_fields
array_is_accepted = refl

blank_broker_is_refused :
    read_config_file (some (some (object (field "broker" (string " ") empty)))) ≡ none
unfolding read_config_file config_of_fields require_config_string is_blank
blank_broker_is_refused = refl

-- One millisecond: the double 0.001, whose thousandfold is rounded to 1.
one_millisecond : times_1000 1152921504606847 60 ≡ some 1
unfolding times_1000
one_millisecond = refl

-- The double 0.0001 is a tenth of a millisecond.
too_fine : times_1000 7378697629483821 66 ≡ none
unfolding times_1000
too_fine = refl

abbrev poll_fields : Fields
poll_fields = field "interval" (number (nat 5)) (field "broker" (string "mqtt://a") empty)

abbrev poll_config : CliConfigFile
poll_config = record {
  broker = some "mqtt://a";
  username = none;
  password = none;
  tls = none;
  interval = some (nat 5);
  once = none;
  addresses = none;
  log_level = none;
}

read_config_file_iff_example :
    (read_config_file (some (some (object poll_fields))) ≡ some poll_config)
    ↔ Describes poll_fields poll_config
read_config_file_iff_example = read_config_file_iff poll_fields poll_config

hyphens_are_replaced : validate_bluetooth_address " 24-4c-ab-2c-24-8e" ≡ parsed "24:4C:AB:2C:24:8E"
unfolding validate_bluetooth_address to_upper_case trim_start trim_end is_blank pairs_pattern
    digits_pattern has_char with_colons without_hyphens joined_pairs
hyphens_are_replaced = refl

mixed_is_refused : validate_bluetooth_address "24-4c:ab2c248e" ≡ usage_error
unfolding validate_bluetooth_address to_upper_case trim_start trim_end is_blank pairs_pattern
    digits_pattern
mixed_is_refused = refl

validate_bluetooth_address-IsCanonical_example :
    IsCanonical " 24-4c-ab-2c-24-8e" "24:4C:AB:2C:24:8E"
    × (validate_bluetooth_address "24:4C:AB:2C:24:8E" ≡ parsed "24:4C:AB:2C:24:8E")
validate_bluetooth_address-IsCanonical_example =
    validate_bluetooth_address-IsCanonical " 24-4c-ab-2c-24-8e" "24:4C:AB:2C:24:8E"
      hyphens_are_replaced
