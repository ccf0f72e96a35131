-- ===== src/Common/Masks.antt =====
-- Masks of bit_and and bit_or with the lowest or the highest bits of a word.
use linuxapp.Common.{
  ℕ, zero, suc, ◌+◌, ◌*◌, ◌/◌, ◌%◌, ◌^◌, ◌<◌, ◌≡◌, refl, ap, ◌∙◌, arith, bit_and, bit_or,
}
use linuxapp.Common.Bits.{bit_and_step, bit_or_step, bit_and-zero, bit_or-zero}

pub bit_and-one : (a : ℕ) → bit_and a 1 ≡ a % 2
bit_and-one a = omega (arith, bit_and_step a 1, bit_and-zero (a / 2))

-- The mask of the five lowest bits.
mask_5 : (a : ℕ) → bit_and a 31 ≡ a % 32
mask_5 a = omega (
  arith,
  bit_and_step a 31,
  bit_and_step (a / 2) 15,
  bit_and_step (a / 2 / 2) 7,
  bit_and_step (a / 2 / 2 / 2) 3,
  bit_and-one (a / 2 / 2 / 2 / 2),
)

bit_and_double : (a b : ℕ) → bit_and a (b * 2) ≡ bit_and (a / 2) b * 2
bit_and_double a b = omega (arith, bit_and_step a (b * 2), ap (bit_and (a / 2)) half)
  where
    half : b * 2 / 2 ≡ b
    half = omega arith

-- The five highest of sixteen bits: the mask is doubled eleven times.
pub bit_and-upper_5 : (a : ℕ) → a < 65536 → bit_and a 0xF800 ≡ a / 2048 * 2048
bit_and-upper_5 a h = omega (
  arith,
  bit_and_double a (31 * 2 ^ 10),
  bit_and_double (a / 2) (31 * 2 ^ 9),
  bit_and_double (a / 2 / 2) (31 * 2 ^ 8),
  bit_and_double (a / 2 / 2 / 2) (31 * 2 ^ 7),
  bit_and_double (a / 2 / 2 / 2 / 2) (31 * 2 ^ 6),
  bit_and_double (a / 2 / 2 / 2 / 2 / 2) (31 * 2 ^ 5),
  bit_and_double (a / 2 / 2 / 2 / 2 / 2 / 2) (31 * 2 ^ 4),
  bit_and_double (a / 2 / 2 / 2 / 2 / 2 / 2 / 2) (31 * 2 ^ 3),
  bit_and_double (a / 2 / 2 / 2 / 2 / 2 / 2 / 2 / 2) (31 * 2 ^ 2),
  bit_and_double (a / 2 / 2 / 2 / 2 / 2 / 2 / 2 / 2 / 2) (31 * 2 ^ 1),
  bit_and_double (a / 2 / 2 / 2 / 2 / 2 / 2 / 2 / 2 / 2 / 2) (31 * 2 ^ 0),
  mask_5 (a / 2 / 2 / 2 / 2 / 2 / 2 / 2 / 2 / 2 / 2 / 2),
)

bit_and_odd : (a b : ℕ) → bit_and a (b * 2 + 1) ≡ bit_and (a / 2) b * 2 + a % 2
bit_and_odd a b = omega (arith, bit_and_step a (b * 2 + 1), ap (bit_and (a / 2)) half)
  where
    half : (b * 2 + 1) / 2 ≡ b
    half = omega arith

bit_or_odd : (a b : ℕ) → bit_or a (b * 2 + 1) ≡ bit_or (a / 2) b * 2 + 1
bit_or_odd a b = omega (arith, bit_or_step a (b * 2 + 1), ap (bit_or (a / 2)) half)
  where
    half : (b * 2 + 1) / 2 ≡ b
    half = omega arith

bit_or_double : (a b : ℕ) → bit_or a (b * 2) ≡ bit_or (a / 2) b * 2 + a % 2
bit_or_double a b = omega (arith, bit_or_step a (b * 2), ap (bit_or (a / 2)) half)
  where
    half : b * 2 / 2 ≡ b
    half = omega arith

-- k ones.
ones : ℕ → ℕ
ones zero = 0
ones (suc k) = ones k * 2 + 1

doubled : ℕ → ℕ → ℕ
doubled zero b = b
doubled (suc k) b = doubled k b * 2

halved : ℕ → ℕ → ℕ
halved zero a = a
halved (suc k) a = halved k (a / 2)

-- The number whose k lowest bits are those of a, below the bits of x.
joined : ℕ → ℕ → ℕ → ℕ
joined zero a x = x
joined (suc k) a x = joined k (a / 2) x * 2 + a % 2

bit_and-ones : (k a : ℕ) → bit_and a (ones k) ≡ joined k a 0
unfolding ones joined
bit_and-ones zero a = bit_and-zero a
bit_and-ones (suc k) a = omega (arith, bit_and_odd a (ones k), bit_and-ones k (a / 2))

bit_or-doubled : (k a b : ℕ) → bit_or a (doubled k b) ≡ joined k a (bit_or (halved k a) b)
unfolding doubled joined halved
bit_or-doubled zero a b = refl
bit_or-doubled (suc k) a b =
    omega (arith, bit_or_double a (doubled k b), bit_or-doubled k (a / 2) b)

bit_or-ones : (k a : ℕ) → halved k a ≡ 0 → bit_or a (ones k) ≡ ones k
unfolding ones halved
bit_or-ones zero a h = bit_or-zero a ∙ h
bit_or-ones (suc k) a h = omega (arith, bit_or_odd a (ones k), bit_or-ones k (a / 2) h)

-- The sixteen lowest bits.
pub bit_and-lower_16 : (a : ℕ) → bit_and a 0x0000FFFF ≡ a % 65536
unfolding joined ones
bit_and-lower_16 a = bit_and-ones 16 a ∙ omega arith

-- The sixteen highest of thirty-two bits, set.
pub bit_or-upper_16 : (a : ℕ) → a < 2 ^ 32 → bit_or a 0xFFFF0000 ≡ 0xFFFF0000 + a % 65536
unfolding joined doubled ones halved
bit_or-upper_16 a h =
    bit_or-doubled 16 a (ones 16)
    ∙ ap (joined 16 a) (bit_or-ones 16 (halved 16 a) (omega arith))
    ∙ omega arith
