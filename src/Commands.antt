-- ===== src/Commands.antt =====
-- src/core/commands.ts and the MODBUS constants of src/core/constants.ts. The class
-- `DeviceCommand` and its three subclasses are one record: the fields of the base class, and the
-- subclass with its fields. A constructor that throws returns `throws`.
pub mod Frames
pub mod Responses
mod Tests
use bluetti_mqtt_node.Common.{
  ℕ, zero, suc, ◌+◌, ◌-◌, ◌*◌, ◌/◌, ◌%◌, Bool, true, false, not, ◌&&◌, ◌||◌, List, [], ◌∷◌, ◌++◌,
  length, take, drop, set, ltb, leb, ◌==◌, if◌then◌else◌,
}
use bluetti_mqtt_node.Common.JsNumber.{JsNumber, nat, neg, frac, is_integer}
use bluetti_mqtt_node.Errors.{Error, error, range_error, Result, ok, throws, ◌>>=◌, ◌>>◌}
use bluetti_mqtt_node.Crc.{append_modbus_crc, has_valid_modbus_crc, at_is}

pub data Kind : Type 0 where
  read_holding_registers : ℕ → ℕ → Kind
  write_single_register : ℕ → ℕ → Kind
  write_multiple_registers : ℕ → List ℕ → Kind

pub record DeviceCommand : Type 0 where
  pub function_code : ℕ
  pub frame : List ℕ
  pub kind : Kind

-- The constructor of the base class.
unfoldable pub device_command : ℕ → List ℕ → Kind → DeviceCommand
device_command code bytes kind = record {
  function_code = code;
  frame = append_modbus_crc (1 ∷ code ∷ bytes);
  kind = kind;
}

abbrev pub is_uint16 : JsNumber → Bool
is_uint16 (nat n) = leb n 0xffff
is_uint16 (neg n) = false
is_uint16 (frac q) = false

-- The bits of a number that the guard lets through.
abbrev pub to_uint : JsNumber → ℕ
to_uint (nat n) = n
to_uint (neg n) = 0
to_uint (frac q) = 0

unfoldable pub write_uint16_big_endian : List ℕ → ℕ → JsNumber → Result (List ℕ)
write_uint16_big_endian buffer offset value =
    if not (is_uint16 value)
    then throws range_error
    else ok (set (set buffer offset (to_uint value / 256 % 256)) (suc offset) (to_uint value % 256))

-- `Number.isInteger(quantity) && quantity >= 1 && quantity <= 125`.
abbrev pub is_read_quantity : JsNumber → Bool
is_read_quantity (nat q) = leb 1 q && leb q 125
is_read_quantity (neg n) = false
is_read_quantity (frac q) = false

abbrev pub zeros4 : List ℕ
zeros4 = 0 ∷ 0 ∷ 0 ∷ 0 ∷ []

unfoldable pub new_read_holding_registers : JsNumber → JsNumber → Result DeviceCommand
unfolding write_uint16_big_endian device_command
new_read_holding_registers starting_address quantity =
    if not (is_read_quantity quantity) then throws range_error else do
      bytes ← write_uint16_big_endian zeros4 0 starting_address
      bytes' ← write_uint16_big_endian bytes 2 quantity
      ok (
          device_command 3 bytes'
            (read_holding_registers (to_uint starting_address) (to_uint quantity)))

unfoldable pub new_write_single_register : JsNumber → JsNumber → Result DeviceCommand
unfolding write_uint16_big_endian device_command
new_write_single_register address value = do
  bytes ← write_uint16_big_endian zeros4 0 address
  bytes' ← write_uint16_big_endian bytes 2 value
  ok (device_command 6 bytes' (write_single_register (to_uint address) (to_uint value)))

unfoldable pub new_write_multiple_registers : JsNumber → List ℕ → Result DeviceCommand
unfolding write_uint16_big_endian device_command
new_write_multiple_registers starting_address payload =
    if not (length payload % 2 == 0)
    then throws error
    else let register_count = length payload / 2 in
      if ltb register_count 1 || ltb 123 register_count then throws range_error else do
        body ← write_uint16_big_endian (0 ∷ 0 ∷ 0 ∷ 0 ∷ 0 ∷ []) 0 starting_address
        body' ← write_uint16_big_endian body 2 (nat register_count)
        ok (
            device_command 16 (set body' 4 (length payload % 256) ++ payload)
              (write_multiple_registers (to_uint starting_address) payload))

abbrev pub response_size_of : Kind → ℕ
response_size_of (read_holding_registers address quantity) = 2 * quantity + 5
response_size_of (write_single_register address value) = 8
response_size_of (write_multiple_registers address payload) = 8

unfoldable pub response_size : DeviceCommand → ℕ
response_size c = response_size_of c.kind

unfoldable pub is_exception_response : DeviceCommand → List ℕ → Bool
is_exception_response c response =
    length response == 5
    && at_is response 0 1
    && at_is response 1 (c.function_code + 0x80)
    && has_valid_modbus_crc response

-- `isValidResponse` of the base class.
unfoldable pub is_valid_base : DeviceCommand → List ℕ → Bool
unfolding response_size
is_valid_base c response =
    length response == response_size c
    && at_is response 0 1
    && at_is response 1 c.function_code
    && has_valid_modbus_crc response

-- `bytes.every((value, index) => value === frame[index])`.
abbrev pub echoes : List ℕ → List ℕ → Bool
echoes [] frame = true
echoes (b ∷ bytes) [] = false
echoes (b ∷ bytes) (f ∷ frame) = (b == f) && echoes bytes frame

abbrev pub valid_extra : Kind → List ℕ → List ℕ → Bool
valid_extra (read_holding_registers address quantity) frame response =
    at_is response 2 (quantity * 2)
valid_extra (write_single_register address value) frame response = echoes (take 6 response) frame
valid_extra (write_multiple_registers address payload) frame response =
    echoes (take 6 response) frame

unfoldable pub is_valid_response : DeviceCommand → List ℕ → Bool
unfolding is_valid_base
is_valid_response c response = is_valid_base c response && valid_extra c.kind c.frame response

-- `response.slice(3, -2)`, `response.slice(4, 6)` and `response.slice()`.
abbrev pub parse_of : Kind → List ℕ → List ℕ
parse_of (read_holding_registers address quantity) response =
    take (length response - 2 - 3) (drop 3 response)
parse_of (write_single_register address value) response = take 2 (drop 4 response)
parse_of (write_multiple_registers address payload) response = response

unfoldable pub parse_response : DeviceCommand → List ℕ → List ℕ
parse_response c response = parse_of c.kind response
