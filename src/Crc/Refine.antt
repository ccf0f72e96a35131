-- ===== src/Crc/Refine.antt =====
-- CRC16 computes the CRC-16 of the Modbus specification, with its two bytes exchanged.
use linuxapp.Common.{
  ℕ, ◌+◌, ◌*◌, ◌<◌, ◌==◌, ◌&&◌, ◌≡◌, refl, arith, true, bit_xor, ltb, sym, ap, ◌∙◌, some, List, [],
  ◌∷◌, ◌++◌, length, get_or, All, IsByte, ==_iff,
}
use linuxapp.Common.Bits.{
  all_below, all_below_sound, bit_xor-lt, bit_xor_fields, bit_or_fields, bit_xor_assoc,
  bit_xor_comm,
}
use linuxapp.Crc.{auch_crc_hi, auch_crc_lo, crc16_loop, crc16}
use linuxapp.Crc.Reference.{crc_bits, crc_byte, crc_bytes, crc_modbus, swap_bytes}
use linuxapp.Crc.Linear.{crc_bits-bit_xor, crc_bits_high}

abbrev pub table_hi : ℕ → ℕ
table_hi i = get_or auch_crc_hi i 0

abbrev pub table_lo : ℕ → ℕ
table_lo i = get_or auch_crc_lo i 0

tables_check : all_below 256 (λ i. crc_bits 8 i == table_lo i * 256 + table_hi i) ≡ true
unfolding all_below auch_crc_hi auch_crc_lo crc_bits
tables_check = refl

bytes_check : all_below 256 (λ i. ltb (table_lo i) 256 && ltb (table_hi i) 256) ≡ true
unfolding all_below auch_crc_hi auch_crc_lo
bytes_check = refl

pub tables_lem : (i : ℕ) → i < 256 → crc_bits 8 i ≡ table_lo i * 256 + table_hi i
tables_lem i h = (==_iff _ _).0 (all_below_sound 256 _ i tables_check h)

pub tables_bytes : (i : ℕ) → i < 256 → (table_lo i < 256) × (table_hi i < 256)
tables_bytes i h = ground (arith, all_below_sound 256 _ i bytes_check h)

-- The register that the two running bytes stand for: CRCLo above CRCHi.
abbrev pub register : ℕ → ℕ → ℕ
register hi lo = lo * 256 + hi

crc_byte-register :
    (hi lo b : ℕ)
    → hi < 256
    → lo < 256
    → b < 256
    → crc_byte (register hi lo) b
      ≡ register (bit_xor lo (table_hi (bit_xor hi b))) (table_lo (bit_xor hi b))
unfolding crc_byte
crc_byte-register hi lo b h l k =
    ap (crc_bits 8) split
    ∙ crc_bits-bit_xor 8 (lo * 256) (bit_xor hi b)
    ∙ ap (λ r. bit_xor r (crc_bits 8 (bit_xor hi b))) (crc_bits_high 8 lo)
    ∙ ap (bit_xor lo) (tables_lem (bit_xor hi b) index)
    ∙ join
  where
    index : bit_xor hi b < 256
    index = bit_xor-lt 8 hi b h k

    split : bit_xor (register hi lo) b ≡ bit_xor (lo * 256) (bit_xor hi b)
    split = rw (← bit_xor_fields 8 lo hi h) (bit_xor_assoc (lo * 256) hi b)

    join :
        bit_xor lo (table_lo (bit_xor hi b) * 256 + table_hi (bit_xor hi b))
        ≡ register (bit_xor lo (table_hi (bit_xor hi b))) (table_lo (bit_xor hi b))
    join =
        ap (bit_xor lo) (
          sym (
            bit_xor_fields 8 (table_lo (bit_xor hi b)) (table_hi (bit_xor hi b))
              (tables_bytes _ index).1))
        ∙ sym (bit_xor_assoc lo (table_lo (bit_xor hi b) * 256) (table_hi (bit_xor hi b)))
        ∙ ap (λ r. bit_xor r (table_hi (bit_xor hi b)))
            (bit_xor_comm lo (table_lo (bit_xor hi b) * 256))
        ∙ bit_xor_assoc (table_lo (bit_xor hi b) * 256) lo (table_hi (bit_xor hi b))
        ∙ bit_xor_fields 8 (table_lo (bit_xor hi b)) (bit_xor lo (table_hi (bit_xor hi b)))
            (bit_xor-lt 8 lo (table_hi (bit_xor hi b)) l (tables_bytes _ index).1)

crc16_loop-crc_bytes :
    (msg rest : List ℕ) (hi lo : ℕ)
    → All IsByte msg
    → hi < 256
    → lo < 256
    → crc16_loop (msg ++ rest) (length msg) hi lo
      ≡ some (swap_bytes (crc_bytes (register hi lo) msg))
unfolding crc16_loop crc_bytes
crc16_loop-crc_bytes [] rest hi lo bytes h l = ap some (bit_or_fields 8 hi lo l ∙ omega arith)
crc16_loop-crc_bytes (b ∷ msg) rest hi lo (k, bytes) h l = rw (crc_byte-register hi lo b h l k) (
    crc16_loop-crc_bytes msg rest _ _ bytes
      (bit_xor-lt 8 lo (table_hi (bit_xor hi b)) l (tables_bytes _ (bit_xor-lt 8 hi b h k)).1)
      (tables_bytes _ (bit_xor-lt 8 hi b h k)).0)

-- On any message of bytes, whatever follows it in memory, CRC16 over the length of the message
-- returns the CRC-16 of the Modbus specification with its two bytes exchanged.
pub crc16-crc_modbus :
    (msg rest : List ℕ)
    → All IsByte msg
    → crc16 (msg ++ rest) (length msg) ≡ some (swap_bytes (crc_modbus msg))
unfolding crc16 crc_modbus
crc16-crc_modbus msg rest bytes =
    crc16_loop-crc_bytes msg rest 0xff 0xff bytes (omega arith) (omega arith)
