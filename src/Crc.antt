-- ===== src/Crc.antt =====
-- src/core/crc.ts and the CRC constants of src/core/constants.ts: the MODBUS checksum, and the two routines that append and test it. A
-- `Uint8Array` is a list of bytes, a JavaScript number here a natural number.
pub mod Bounds
pub mod Detection
pub mod Frames
mod Tests
use bluetti_mqtt_node.Common.{
  ℕ, zero, suc, ◌-◌, ◌/◌, ◌%◌, ◌≡◌, refl, Bool, false, ◌&&◌, List, [], ◌∷◌, ◌++◌, length, take,
  get_elem?, ltb, ◌==◌, if◌then◌else◌, none, some, bit_xor,
}

-- CRC_INITIAL_VALUE and CRC_POLYNOMIAL.
abbrev pub crc_initial_value : ℕ
crc_initial_value = 0xffff

abbrev pub crc_polynomial : ℕ
crc_polynomial = 0xa001

-- One round of the inner loop: `crc & 1` is `% 2`, `crc >>= 1` is `/ 2`.
unfoldable pub crc_bit : ℕ → ℕ
crc_bit crc =
    let lsb = crc % 2 in
    let shifted = crc / 2 in if lsb == 0 then shifted else bit_xor shifted crc_polynomial

pub crc_bits : ℕ → ℕ → ℕ
crc_bits zero crc = crc
crc_bits (suc bits) crc = crc_bits bits (crc_bit crc)

-- One round of the outer loop.
pub crc_byte : ℕ → ℕ → ℕ
crc_byte crc byte = crc_bits 8 (bit_xor crc byte)

pub crc_from : ℕ → List ℕ → ℕ
crc_from crc [] = crc
crc_from crc (byte ∷ data') = crc_from (crc_byte crc byte) data'

unfoldable pub modbus_crc : List ℕ → ℕ
unfolding crc_from crc_byte crc_bits crc_bit
modbus_crc bytes = crc_from crc_initial_value bytes % 0x10000

-- The two bytes that follow the body: `crc & 0xff`, then `(crc >> 8) & 0xff`.
abbrev pub crc_bytes : ℕ → List ℕ
crc_bytes crc = crc % 256 ∷ (crc / 256 % 256) ∷ []

unfoldable pub append_modbus_crc : List ℕ → List ℕ
append_modbus_crc bytes = bytes ++ crc_bytes (modbus_crc bytes)

-- `frame[i] === x`: false where the index is out of range.
abbrev pub at_is : List ℕ → ℕ → ℕ → Bool
at_is xs i x = elim (get_elem? xs i) [ none ↦ false | some y ↦ y == x ]

unfoldable pub has_valid_modbus_crc : List ℕ → Bool
has_valid_modbus_crc frame =
    if ltb (length frame) 3
    then false
    else let expected = modbus_crc (take (length frame - 2) frame) in
      at_is frame (length frame - 2) (expected % 256)
      && at_is frame (length frame - 1) (expected / 256 % 256)
