-- ===== src/Crc.antt =====
-- iMX287Learn/cqada/share/mbuscrc.c: the table driven CRC-16 of Modbus frames.
mod Table
pub mod Reference
pub mod Linear
pub mod Refine
pub mod Running
pub mod Detect
mod Tests
unfoldable pub use Table.{auch_crc_hi, auch_crc_lo}
use linuxapp.Common.{
  ℕ, zero, suc, ◌*◌, ◌^◌, bit_xor, bit_or, get_or, Option, none, some, List, [], ◌∷◌,
}

-- `while(usDataLen--)`. A read past the message is the outcome `none`. The index
-- `uchCRCHi ^ *puchMsg++` is the exclusive or of two bytes, so it stays inside the tables.
unfoldable pub crc16_loop : List ℕ → ℕ → ℕ → ℕ → Option ℕ
crc16_loop msg zero crc_hi crc_lo = some (bit_or (crc_hi * 2 ^ 8) crc_lo)
crc16_loop [] (suc len) crc_hi crc_lo = none
crc16_loop (b ∷ msg) (suc len) crc_hi crc_lo =
    let index = bit_xor crc_hi b in
    crc16_loop msg len (bit_xor crc_lo (get_or auch_crc_hi index 0)) (get_or auch_crc_lo index 0)

-- `CRC16(puchMsg, usDataLen)`
unfoldable pub crc16 : List ℕ → ℕ → Option ℕ
unfolding crc16_loop
crc16 msg len = crc16_loop msg len 0xff 0xff
