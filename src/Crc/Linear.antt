-- ===== src/Crc/Linear.antt =====
-- Shifting the register is linear, so a register splits into its two bytes.
use linuxapp.Common.{
  ℕ, zero, suc, ◌+◌, ◌*◌, ◌/◌, ◌%◌, ◌^◌, ◌==◌, ◌≡◌, refl, arith, bit_xor, ◌∙◌, sym, ap, ap₂,
  if◌then◌else◌,
}
use linuxapp.Common.Bits.{
  half-bit_xor, parity-bit_xor, bit_xor_assoc, bit_xor_comm, bit_xor_self, zero-bit_xor,
  bit_xor-zero,
}
use linuxapp.Crc.Reference.{crc_bit, crc_bits}
use native.Mathlib.Nat.{pow-suc}

-- What a shift adds to the halved register.
abbrev feedback : ℕ → ℕ
feedback p = if p % 2 == 1 then 0xa001 else 0

xor_middle :
    (a b c d : ℕ) → bit_xor (bit_xor a b) (bit_xor c d) ≡ bit_xor (bit_xor a c) (bit_xor b d)
xor_middle a b c d =
    rw (bit_xor_assoc a b (bit_xor c d), ← bit_xor_assoc b c d, bit_xor_comm b c)
      (rw (bit_xor_assoc c b d) (sym (bit_xor_assoc a c (bit_xor b d))))

feedback_add : (a b : ℕ) → feedback (a + b) ≡ bit_xor (feedback a) (feedback b)
feedback_add a b =
    ground (arith, bit_xor_self 0xa001, bit_xor-zero 0xa001, zero-bit_xor 0xa001, bit_xor-zero 0)

feedback_mod : (a b : ℕ) → a % 2 ≡ b % 2 → feedback a ≡ feedback b
feedback_mod a b h = ground arith

pub crc_bit-bit_xor : (a b : ℕ) → crc_bit (bit_xor a b) ≡ bit_xor (crc_bit a) (crc_bit b)
unfolding crc_bit
crc_bit-bit_xor a b =
    ap₂ bit_xor (half-bit_xor a b)
      (feedback_mod (bit_xor a b) (a + b) (parity-bit_xor a b) ∙ feedback_add a b)
    ∙ xor_middle (a / 2) (b / 2) (feedback a) (feedback b)

pub crc_bits-bit_xor :
    (n a b : ℕ) → crc_bits n (bit_xor a b) ≡ bit_xor (crc_bits n a) (crc_bits n b)
unfolding crc_bits
crc_bits-bit_xor zero a b = refl
crc_bits-bit_xor (suc n) a b =
    ap (crc_bits n) (crc_bit-bit_xor a b) ∙ crc_bits-bit_xor n (crc_bit a) (crc_bit b)

crc_bit_even : (q : ℕ) → crc_bit (q * 2) ≡ q
unfolding crc_bit
crc_bit_even q = ground (arith, bit_xor-zero (q * 2 / 2))

-- The bits above the ones shifted out come down unchanged.
pub crc_bits_high : (n q : ℕ) → crc_bits n (q * 2 ^ n) ≡ q
unfolding crc_bits
crc_bits_high zero q = omega arith
crc_bits_high (suc n) q =
    ap (λ (r : ℕ). crc_bits n (crc_bit r)) (omega (arith, ap (λ (t : ℕ). q * t) (pow-suc 2 n)))
    ∙ ap (crc_bits n) (crc_bit_even (q * 2 ^ n))
    ∙ crc_bits_high n q
