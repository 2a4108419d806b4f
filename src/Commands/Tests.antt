-- ===== src/Commands/Tests.antt =====
-- Tests of src/core/commands.ts, and its theorems at concrete commands.
use bluetti_mqtt_node.Common.{ℕ, ◌*◌, ◌≡◌, ◌↔◌, refl, true, List, [], ◌∷◌, some, length}
use bluetti_mqtt_node.Common.JsNumber.{nat, neg}
use bluetti_mqtt_node.Errors.{range_error, throws}
use bluetti_mqtt_node.Crc.{append_modbus_crc, modbus_crc}
use bluetti_mqtt_node.Commands.{
  device_command, new_read_holding_registers, new_write_single_register, is_valid_response,
  parse_response,
}
use bluetti_mqtt_node.Commands.Frames.{
  decode_request, Built, built_read, read_command, decode_request-Built,
}
use bluetti_mqtt_node.Commands.Responses.{read_response_iff}

frame_test : (read_command 10 40).frame ≡ 1 ∷ 3 ∷ 0 ∷ 10 ∷ 0 ∷ 40 ∷ 0x65 ∷ 0xd6 ∷ []
unfolding device_command append_modbus_crc modbus_crc
frame_test = refl

quantity_test : new_read_holding_registers (nat 10) (nat 126) ≡ throws range_error
unfolding new_read_holding_registers
quantity_test = refl

value_test : new_write_single_register (nat 3007) (neg 0) ≡ throws range_error
unfolding new_write_single_register
value_test = refl

read-Built : Built (read_command 10 40)
unfolding new_read_holding_registers
read-Built = built_read (nat 10) (nat 40) refl

decode_request-Built_example :
    decode_request (read_command 10 40).frame ≡ some (read_command 10 40).kind
decode_request-Built_example = decode_request-Built read-Built

-- The register holds 7.
abbrev one_register : List ℕ
one_register = append_modbus_crc (1 ∷ 3 ∷ 2 ∷ 0 ∷ 7 ∷ [])

read_response_iff_example : (is_valid_response (read_command 10 1) one_register ≡ true) ↔ (
    (payload : List ℕ) × (length payload ≡ 2 * 1)
    × (one_register ≡ append_modbus_crc (1 ∷ 3 ∷ (2 * 1) ∷ payload))
    × (parse_response (read_command 10 1) one_register ≡ payload))
read_response_iff_example = read_response_iff 10 1 one_register
