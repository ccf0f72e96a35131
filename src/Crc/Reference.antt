-- ===== src/Crc/Reference.antt =====
-- The CRC-16 that Modbus specifies, bit by bit: a 16-bit register that starts at all ones, takes
-- each byte into its low half and is shifted eight times with the polynomial 0xA001.
use linuxapp.Common.{ℕ, zero, suc, ◌+◌, ◌*◌, ◌/◌, ◌%◌, ◌==◌, bit_xor, if◌then◌else◌, List, [], ◌∷◌}

unfoldable pub crc_bit : ℕ → ℕ
crc_bit r = bit_xor (r / 2) (if r % 2 == 1 then 0xa001 else 0)

unfoldable pub crc_bits : ℕ → ℕ → ℕ
unfolding crc_bit
crc_bits zero r = r
crc_bits (suc n) r = crc_bits n (crc_bit r)

unfoldable pub crc_byte : ℕ → ℕ → ℕ
unfolding crc_bits
crc_byte r b = crc_bits 8 (bit_xor r b)

unfoldable pub crc_bytes : ℕ → List ℕ → ℕ
unfolding crc_byte
crc_bytes r [] = r
crc_bytes r (b ∷ msg) = crc_bytes (crc_byte r b) msg

unfoldable pub crc_modbus : List ℕ → ℕ
unfolding crc_bytes
crc_modbus msg = crc_bytes 0xffff msg

-- The two bytes of a 16-bit word exchanged.
abbrev pub swap_bytes : ℕ → ℕ
swap_bytes w = w % 256 * 256 + w / 256
