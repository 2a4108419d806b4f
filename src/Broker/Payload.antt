-- ===== src/Broker/Payload.antt =====
-- `parseCommandValue` of src/broker/payload-utils.ts, and of `serializeValue` the texts of Booleans
-- and enum options. A number of more than 53 bits stands for the double nearest to it.
use Prim.Native.Char.{code}
use Prim.Native.String.{String, [] as empty, ◌∷◌ as ◌then◌}
use text.Mathlib.Text.{◌==◌ as str_eq}
use bluetti_mqtt_node.Common.{
  ℕ, zero, suc, ◌+◌, ◌-◌, ◌*◌, Bool, true, false, ◌==◌, if◌then◌else◌, Option, none, some,
}
use bluetti_mqtt_node.Common.JsNumber.{JsNumber, nat, neg}
use bluetti_mqtt_node.Devices.Field.{ParsedValue, enum_value, named, boolean as parsed_boolean}
use bluetti_mqtt_node.Devices.Device.{SetterValue, boolean, number, string}
use bluetti_mqtt_node.Devices.Registry.{is_serial}

abbrev pub boolean_on_value : String
boolean_on_value = "ON"

abbrev pub boolean_off_value : String
boolean_off_value = "OFF"

-- The text that `serializeValue` gives; `none` for a value whose text is not modelled.
abbrev pub serialize_value : ParsedValue → Option String
serialize_value (parsed_boolean b) = some (if b then boolean_on_value else boolean_off_value)
serialize_value (enum_value (named name) raw) = some name
serialize_value _ = none

-- `INTEGER_PAYLOAD_PATTERN.test(payload)`: a minus or none, and one or more digits.
abbrev pub is_integer_payload : String → Bool
is_integer_payload empty = false
is_integer_payload (c then s) = if code c == 45 then is_serial s else is_serial (c then s)

-- The digits of a decimal text after those that make `acc`.
abbrev pub decimal : ℕ → String → ℕ
decimal acc empty = acc
decimal acc (c then s) = decimal (acc * 10 + (code c - 48)) s

abbrev pub negated : ℕ → JsNumber
negated zero = nat 0
negated (suc n) = neg n

-- `Number(payload)` on such a text.
abbrev pub integer_of : String → JsNumber
integer_of empty = nat 0
integer_of (c then s) = if code c == 45 then negated (decimal 0 s) else nat (decimal 0 (c then s))

unfoldable pub parse_command_value : String → SetterValue
parse_command_value payload =
    if str_eq payload boolean_on_value
    then boolean true
    else if str_eq payload boolean_off_value
    then boolean false
    else if is_integer_payload payload
    then number (integer_of payload)
    else string payload
