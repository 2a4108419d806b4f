-- ===== src/Devices/Registry.antt =====
-- src/devices/registry.ts: the advertisement names. The pattern of the source is an alternation
-- of the model names, a group of one or more digits, and the end of the text; the match takes the
-- first model for which the rest matches.
pub mod Match
pub mod Laws
use Prim.Native.Char.{Char, code}
use Prim.Native.String.{String, [] as empty, ◌∷◌ as ◌then◌}
use bluetti_mqtt_node.Common.{
  ℕ, Bool, true, false, ◌&&◌, List, [], ◌∷◌, leb, ◌==◌, if◌then◌else◌, Option, none, some,
}
use bluetti_mqtt_node.Errors.{error, Result, ok, throws}
use bluetti_mqtt_node.Devices.Device.{BluettiDevice}
use bluetti_mqtt_node.Devices.Definition.{
  DeviceDefinition, bluetti_definitions, definition_in, new_bluetti_device_model,
}

-- The alternatives of the pattern, in its order.
abbrev pub model_names : List String
model_names = "AC200M" ∷ "AC300" ∷ "AC500" ∷ "AC60" ∷ "EB3A" ∷ "EP500P" ∷ "EP500" ∷ "EP600" ∷ []

abbrev pub is_digit : Char → Bool
is_digit c = leb 48 (code c) && leb (code c) 57

abbrev pub all_digits : String → Bool
all_digits empty = true
all_digits (c then s) = is_digit c && all_digits s

-- `(\d+)$`.
abbrev pub is_serial : String → Bool
is_serial empty = false
is_serial (c then s) = all_digits (c then s)

-- What follows a model name at the start of the text.
abbrev pub strip : String → String → Option String
strip empty name = some name
strip (c then model) empty = none
strip (c then model) (d then name) = if code c == code d then strip model name else none

abbrev pub serial_in : Option String → Option String
serial_in none = none
serial_in (some rest) = if is_serial rest then some rest else none

abbrev pub or_else : Option (String × String) → Option (String × String) → Option (String × String)
or_else none other = other
or_else (some groups) other = some groups

abbrev pub with_model : String → Option String → Option (String × String)
with_model model none = none
with_model model (some serial) = some (model, serial)

unfoldable pub match_models : List String → String → Option (String × String)
match_models [] name = none
match_models (model ∷ models) name =
    or_else (with_model model (serial_in (strip model name))) (match_models models name)

-- `DEVICE_NAME_PATTERN.exec(name)`: the two groups.
unfoldable pub exec_device_name_pattern : String → Option (String × String)
unfolding match_models
exec_device_name_pattern name = match_models model_names name

abbrev pub is_some : Option (String × String) → Bool
is_some none = false
is_some (some groups) = true

unfoldable pub is_supported_bluetti_name : String → Bool
unfolding exec_device_name_pattern
is_supported_bluetti_name name = is_some (exec_device_name_pattern name)

abbrev pub device_of_definition : String → String → Option DeviceDefinition → Result BluettiDevice
device_of_definition address serial none = throws error
device_of_definition address serial (some def) = ok (new_bluetti_device_model address serial def)

abbrev pub device_of_match : String → Option (String × String) → Result BluettiDevice
device_of_match address none = throws error
device_of_match address (some (model, serial)) =
    device_of_definition address serial (definition_in bluetti_definitions model)

unfoldable pub create_device_from_advertisement : String → String → Result BluettiDevice
unfolding exec_device_name_pattern
create_device_from_advertisement address name =
    device_of_match address (exec_device_name_pattern name)
