-- ===== src/Crc/Detection.antt =====
-- What the checksum of src/core/crc.ts tells apart: every step of it can be undone.
use bluetti_mqtt_node.Common.{ℕ, zero, suc, ◌/◌, ◌<◌, ◌≡◌, arith, bit_xor}
use bluetti_mqtt_node.Common.Bits.{
  bit_xor-lt, bit_xor-ge, bit_xor_cancel_left, bit_xor_cancel_right,
}
use bluetti_mqtt_node.Crc.{crc_bit, crc_bits, crc_byte, crc_polynomial}
use bluetti_mqtt_node.Crc.Bounds.{crc_bit-lt}

-- The highest bit of the new checksum is the bit that was shifted out.
crc_bit_cancel : (c d : ℕ) → c < 0x10000 → d < 0x10000 → crc_bit c ≡ crc_bit d → c ≡ d
unfolding crc_bit
crc_bit_cancel c d p q h = ground (
  arith,
  bit_xor-ge 15 (c / 2) crc_polynomial (omega arith) (omega arith) (omega arith),
  bit_xor-ge 15 (d / 2) crc_polynomial (omega arith) (omega arith) (omega arith),
  bit_xor_cancel_right 16 crc_polynomial (c / 2) (d / 2) (omega arith) (omega arith) (omega arith),
)

crc_bits_cancel : (n c d : ℕ) → c < 0x10000 → d < 0x10000 → crc_bits n c ≡ crc_bits n d → c ≡ d
unfolding crc_bits
crc_bits_cancel zero c d p q h = h
crc_bits_cancel (suc n) c d p q h =
    crc_bit_cancel c d p q
      (crc_bits_cancel n (crc_bit c) (crc_bit d) (crc_bit-lt c p) (crc_bit-lt d q) h)

-- From the same checksum, different bytes lead to different checksums.
pub crc_byte_cancel_byte :
    (c x y : ℕ) → c < 0x10000 → x < 256 → y < 256 → crc_byte c x ≡ crc_byte c y → x ≡ y
unfolding crc_byte
crc_byte_cancel_byte c x y p q r h = bit_xor_cancel_left 16 c x y p (omega arith) (omega arith) (
    crc_bits_cancel 8 (bit_xor c x) (bit_xor c y) (bit_xor-lt 16 c x p (omega arith))
      (bit_xor-lt 16 c y p (omega arith)) h)

pub crc_byte_cancel :
    (c d x : ℕ) → c < 0x10000 → d < 0x10000 → x < 256 → crc_byte c x ≡ crc_byte d x → c ≡ d
unfolding crc_byte
crc_byte_cancel c d x p q r h = bit_xor_cancel_right 16 x c d (omega arith) p q (
    crc_bits_cancel 8 (bit_xor c x) (bit_xor d x) (bit_xor-lt 16 c x p (omega arith))
      (bit_xor-lt 16 d x q (omega arith)) h)
