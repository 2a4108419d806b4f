-- ===== src/Crc/Tests.antt =====
-- Tests of src/core/crc.ts, and its theorems at a concrete frame.
use bluetti_mqtt_node.Common.{
  ℕ, ◌≤◌, ◌≡◌, ◌↔◌, refl, true, false, List, [], ◌∷◌, ◌++◌, arith, length,
}
use bluetti_mqtt_node.Crc.{modbus_crc, append_modbus_crc, has_valid_modbus_crc}
use bluetti_mqtt_node.Crc.Frames.{has_valid-iff-append, has_valid-detects_one_byte}

-- The body in the comment of `modbusCrc`.
abbrev read_body : List ℕ
read_body = 0x01 ∷ 0x03 ∷ 0x00 ∷ 0x0a ∷ 0x00 ∷ 0x28 ∷ []

crc_test : modbus_crc read_body ≡ 0xd665
unfolding modbus_crc
crc_test = refl

frame_test : has_valid_modbus_crc (read_body ++ 0x65 ∷ 0xd6 ∷ []) ≡ true
unfolding has_valid_modbus_crc modbus_crc
frame_test = refl

has_valid-iff-append_example : (has_valid_modbus_crc (read_body ++ 0x65 ∷ 0xd6 ∷ []) ≡ true) ↔ (
    (body : List ℕ) × (1 ≤ length body) × (read_body ++ 0x65 ∷ 0xd6 ∷ [] ≡ append_modbus_crc body))
has_valid-iff-append_example = has_valid-iff-append (read_body ++ 0x65 ∷ 0xd6 ∷ [])

has_valid-detects_one_byte_example :
    has_valid_modbus_crc (0x01 ∷ 0x03 ∷ 0x00 ∷ 0x0b ∷ 0x00 ∷ 0x28 ∷ 0x65 ∷ 0xd6 ∷ []) ≡ false
has_valid-detects_one_byte_example =
    has_valid-detects_one_byte (0x01 ∷ 0x03 ∷ 0x00 ∷ []) 0x0a 0x0b (0x00 ∷ 0x28 ∷ 0x65 ∷ 0xd6 ∷ [])
      (omega arith) (omega arith) (omega arith) frame_test
