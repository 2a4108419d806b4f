-- ===== src/Crc/Bounds.antt =====
-- The running checksum of src/core/crc.ts stays within 16 bits.
use bluetti_mqtt_node.Common.{ℕ, zero, suc, ◌/◌, ◌<◌, ◌≡◌, List, [], ◌∷◌, arith, IsBytes}
use bluetti_mqtt_node.Common.Bits.{bit_xor-lt}
use bluetti_mqtt_node.Crc.{
  crc_bit, crc_bits, crc_byte, crc_from, crc_polynomial, modbus_crc, crc_initial_value,
}

pub crc_bit-lt : (crc : ℕ) → crc < 0x10000 → crc_bit crc < 0x10000
unfolding crc_bit
crc_bit-lt crc h =
    ground (arith, bit_xor-lt 16 (crc / 2) crc_polynomial (omega arith) (omega arith))

pub crc_bits-lt : (n crc : ℕ) → crc < 0x10000 → crc_bits n crc < 0x10000
unfolding crc_bits
crc_bits-lt zero crc h = h
crc_bits-lt (suc n) crc h = crc_bits-lt n (crc_bit crc) (crc_bit-lt crc h)

pub crc_byte-lt : (crc byte : ℕ) → crc < 0x10000 → byte < 256 → crc_byte crc byte < 0x10000
unfolding crc_byte
crc_byte-lt crc byte h b = crc_bits-lt 8 _ (bit_xor-lt 16 crc byte h (omega arith))

pub crc_from-lt :
    (crc : ℕ) (bytes : List ℕ) → crc < 0x10000 → IsBytes bytes → crc_from crc bytes < 0x10000
unfolding crc_from
crc_from-lt crc [] h k = h
crc_from-lt crc (b ∷ bytes) h (p, k) = crc_from-lt (crc_byte crc b) bytes (crc_byte-lt crc b h p) k

-- The mask `crc & 0xffff` at the end of `modbusCrc` removes nothing.
pub modbus_crc-eq-crc_from :
    (bytes : List ℕ) → IsBytes bytes → modbus_crc bytes ≡ crc_from crc_initial_value bytes
unfolding modbus_crc
modbus_crc-eq-crc_from bytes k = omega (arith, crc_from-lt crc_initial_value bytes (omega arith) k)
