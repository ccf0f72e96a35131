-- ===== src/Crc/Tests.antt =====
-- Runs of CRC16, and its theorems at concrete messages.
use linuxapp.Common.{ℕ, ◌≡◌, ◌*◌, ◌+◌, ◌↔◌, refl, some, none, List, [], ◌∷◌, arith}
use linuxapp.Crc.{crc16, auch_crc_hi, auch_crc_lo}
use linuxapp.Crc.Reference.{crc_modbus}
use linuxapp.Crc.Refine.{crc16-crc_modbus}
use linuxapp.Crc.Detect.{crc16_burst, crc16_residue}

-- Read ten holding registers from address 0 of device 1.
abbrev request : List ℕ
request = 0x01 ∷ 0x03 ∷ 0x00 ∷ 0x00 ∷ 0x00 ∷ 0x0a ∷ []

crc16-request : crc16 request 6 ≡ some 0xc5cd
unfolding crc16 auch_crc_hi auch_crc_lo
crc16-request = refl

crc_modbus-request : crc_modbus request ≡ 0xcdc5
unfolding crc_modbus
crc_modbus-request = refl

-- A length beyond the message reads past it.
crc16_too_long : crc16 request 7 ≡ none
unfolding crc16 auch_crc_hi auch_crc_lo
crc16_too_long = refl

crc16-crc_modbus_example : crc16 (0x01 ∷ 0x03 ∷ 0x00 ∷ 0x07 ∷ []) 3 ≡ some 0x20f0
unfolding crc_modbus
crc16-crc_modbus_example = crc16-crc_modbus (0x01 ∷ 0x03 ∷ 0x00 ∷ []) (0x07 ∷ []) (omega arith)

crc16_residue_example :
    (crc16 (0x01 ∷ 0x03 ∷ 0x00 ∷ 0x00 ∷ 0x00 ∷ 0x0a ∷ 0xc5 ∷ 0xcd ∷ []) 8 ≡ some 0)
    ↔ (0xc5 * 256 + 0xcd ≡ 0xc5cd)
crc16_residue_example =
    crc16_residue request 0xc5cd 0xc5 0xcd (omega arith) (omega arith) (omega arith) crc16-request

abbrev two_zeros : List ℕ
two_zeros = 0x00 ∷ 0x00 ∷ []

crc16_burst_example : two_zeros ≡ 0x00 ∷ 0x00 ∷ []
crc16_burst_example =
    crc16_burst (0x01 ∷ 0x03 ∷ []) two_zeros (0x00 ∷ 0x00 ∷ []) (0x0a ∷ []) (omega arith)
      (omega arith) (omega arith) (omega arith) refl (omega arith) refl
