-- ===== src/Common/Bits.antt =====
-- Laws of `bit_xor`, `bit_or` and `bit_and` at variables, from one equation for the lowest binary
-- digit, and checks of every value below a bound.
use Prim.Native.Nat.{
  ℕ, zero, suc, ◌+◌, ◌-◌, ◌*◌, ◌/◌, ◌%◌, ◌^◌, ◌≤◌, ◌<◌, bit_xor, digits, bitwise, min, max, bit_and,
  bit_or, bit_and-bitwise, bit_or-bitwise, bit_xor-bitwise, differ,
}
use mathlib.Core.Path.{◌≡◌, refl, ◌∙◌, sym, ap}
use mathlib.Core.Bool.{Bool, true, ◌&&◌}
use native.Mathlib.Nat.{pow-suc}
use native.Mathlib.Omega.{arith}

-- `digits z f` reads the digits of two numbers on fuel, which the first number is enough for.
module _ (z : ℕ → ℕ) (f : ℕ → ℕ → ℕ) where
  -- One round more than enough changes nothing, and so do `d` rounds more.
  one_more : (k c b : ℕ) → c ≤ k → digits z f (suc k) c b ≡ digits z f k c b
  one_more zero zero b h = refl
  one_more zero (suc c) b h = absurd (omega arith)
  one_more (suc k) zero b h = refl
  one_more (suc k) (suc c) b h =
      ap (λ r. r * 2 + f (suc c % 2) (b % 2)) (one_more k (suc c / 2) (b / 2) (omega arith))

  some_more : (d k c b : ℕ) → c ≤ k → digits z f (d + k) c b ≡ digits z f k c b
  some_more zero k c b h = ap (λ r. digits z f r c b) (omega arith)
  some_more (suc d) k c b h =
      let next : suc d + k ≡ suc (d + k) = omega arith in
      ap (λ r. digits z f r c b) next ∙ one_more (d + k) c b (omega arith) ∙ some_more d k c b h

  -- The lowest digits are combined apart from the rest, if `z` does so too.
  lowest_digit :
      ((b : ℕ) → z b ≡ z (b / 2) * 2 + f 0 (b % 2))
      → (c b : ℕ) → bitwise z f c b ≡ bitwise z f (c / 2) (b / 2) * 2 + f (c % 2) (b % 2)
  lowest_digit law zero b = law b
  lowest_digit law (suc c) b =
      let half = suc c / 2 in
      let enough : c ≡ (c - half) + half = omega arith in
      ap (λ r. r * 2 + f (suc c % 2) (b % 2))
        (ap (λ r. digits z f r half (b / 2)) enough
          ∙ some_more (c - half) half half (b / 2) (omega arith))

pub bit_or_step : (a b : ℕ) → bit_or a b ≡ bit_or (a / 2) (b / 2) * 2 + max (a % 2) (b % 2)
bit_or_step a b = simp bit_or-bitwise (lowest_digit (λ y. y) max (λ c. omega arith) a b)

pub bit_and_step : (a b : ℕ) → bit_and a b ≡ bit_and (a / 2) (b / 2) * 2 + min (a % 2) (b % 2)
bit_and_step a b = simp bit_and-bitwise (lowest_digit (λ y. 0) min (λ c. omega arith) a b)

differ_digits : (p q : ℕ) → p < 2 → q < 2 → differ p q ≡ (p + q) % 2
differ_digits zero zero h k = refl
differ_digits zero (suc zero) h k = refl
differ_digits zero (suc (suc q)) h k = absurd (omega arith)
differ_digits (suc zero) zero h k = refl
differ_digits (suc zero) (suc zero) h k = refl
differ_digits (suc zero) (suc (suc q)) h k = absurd (omega arith)
differ_digits (suc (suc p)) q h k = absurd (omega arith)

pub bit_xor_step : (a b : ℕ) → bit_xor a b ≡ bit_xor (a / 2) (b / 2) * 2 + (a + b) % 2
bit_xor_step a b = simp bit_xor-bitwise (
    lowest_digit (λ y. y) differ
      (λ c. omega (arith, differ_digits 0 (c % 2) (omega arith) (omega arith))) a b
    ∙ ap (λ d. bitwise (λ y. y) differ (a / 2) (b / 2) * 2 + d) parities)
  where
    parities : differ (a % 2) (b % 2) ≡ (a + b) % 2
    parities = omega (arith, differ_digits (a % 2) (b % 2) (omega arith) (omega arith))

pub half-bit_xor : (a b : ℕ) → bit_xor a b / 2 ≡ bit_xor (a / 2) (b / 2)
half-bit_xor a b = omega (arith, bit_xor_step a b)

pub parity-bit_xor : (a b : ℕ) → bit_xor a b % 2 ≡ (a + b) % 2
parity-bit_xor a b = omega (arith, bit_xor_step a b)

zero-bit_xor_below : (n a : ℕ) → a ≤ n → bit_xor 0 a ≡ a
zero-bit_xor_below zero zero h = refl
zero-bit_xor_below zero (suc a) h = absurd (omega arith)
zero-bit_xor_below (suc n) a h =
    omega (arith, bit_xor_step 0 a, zero-bit_xor_below n (a / 2) (omega arith))

pub zero-bit_xor : (a : ℕ) → bit_xor 0 a ≡ a
zero-bit_xor a = zero-bit_xor_below a a (omega arith)

comm_below : (n a b : ℕ) → a ≤ n → b ≤ n → bit_xor a b ≡ bit_xor b a
comm_below zero zero zero p q = refl
comm_below zero zero (suc b) p q = absurd (omega arith)
comm_below zero (suc a) b p q = absurd (omega arith)
comm_below (suc n) a b p q = omega (
  arith,
  bit_xor_step a b,
  bit_xor_step b a,
  comm_below n (a / 2) (b / 2) (omega arith) (omega arith),
)

pub bit_xor_comm : (a b : ℕ) → bit_xor a b ≡ bit_xor b a
bit_xor_comm a b = comm_below (a + b) a b (omega arith) (omega arith)

pub bit_xor-zero : (a : ℕ) → bit_xor a 0 ≡ a
bit_xor-zero a = bit_xor_comm a 0 ∙ zero-bit_xor a

self_below : (n a : ℕ) → a ≤ n → bit_xor a a ≡ 0
self_below zero zero h = refl
self_below zero (suc a) h = absurd (omega arith)
self_below (suc n) a h = omega (arith, bit_xor_step a a, self_below n (a / 2) (omega arith))

pub bit_xor_self : (a : ℕ) → bit_xor a a ≡ 0
bit_xor_self a = self_below a a (omega arith)

assoc_below :
    (n a b c : ℕ) → a ≤ n → b ≤ n → c ≤ n → bit_xor (bit_xor a b) c ≡ bit_xor a (bit_xor b c)
assoc_below zero zero zero zero p q r = refl
assoc_below zero zero zero (suc c) p q r = absurd (omega arith)
assoc_below zero zero (suc b) c p q r = absurd (omega arith)
assoc_below zero (suc a) b c p q r = absurd (omega arith)
assoc_below (suc n) a b c p q r =
    bit_xor_step (bit_xor a b) c
    ∙ rw (half-bit_xor a b) (
        rw (assoc_below n (a / 2) (b / 2) (c / 2) (omega arith) (omega arith) (omega arith)) (
          rw (← half-bit_xor b c)
            (omega (arith, bit_xor_step a (bit_xor b c), parity-bit_xor a b, parity-bit_xor b c))))

pub bit_xor_assoc : (a b c : ℕ) → bit_xor (bit_xor a b) c ≡ bit_xor a (bit_xor b c)
bit_xor_assoc a b c = assoc_below (a + b + c) a b c (omega arith) (omega arith) (omega arith)

-- A second `bit_xor` with the same number undoes the first.
pub bit_xor_cancel : (a b : ℕ) → bit_xor a (bit_xor a b) ≡ b
bit_xor_cancel a b = rw (← bit_xor_assoc a a b, bit_xor_self a) (zero-bit_xor b)

pub bit_xor_injective : (a b c : ℕ) → bit_xor a b ≡ bit_xor a c → b ≡ c
bit_xor_injective a b c e = sym (bit_xor_cancel a b) ∙ ap (bit_xor a) e ∙ bit_xor_cancel a c

pub bit_xor-lt : (k a b : ℕ) → a < 2 ^ k → b < 2 ^ k → bit_xor a b < 2 ^ k
bit_xor-lt zero zero b p q = rw (zero-bit_xor b) q
bit_xor-lt zero (suc a) b p q = absurd (omega arith)
bit_xor-lt (suc k) a b p q = omega (
  arith,
  bit_xor_step a b,
  pow-suc 2 k,
  bit_xor-lt k (a / 2) (b / 2) (omega (arith, pow-suc 2 k)) (omega (arith, pow-suc 2 k)),
)

-- `q` above `k` bits and a number within them do not meet.
pub bit_xor_fields : (k q r : ℕ) → r < 2 ^ k → bit_xor (q * 2 ^ k) r ≡ q * 2 ^ k + r
bit_xor_fields zero q zero h = bit_xor-zero (q * 2 ^ 0) ∙ omega arith
bit_xor_fields zero q (suc r) h = absurd (omega arith)
bit_xor_fields (suc k) q r h = ground (
  arith,
  bit_xor_step (q * 2 ^ suc k) r,
  ap (λ (t : ℕ). q * t) (pow-suc 2 k),
  bit_xor_fields k q (r / 2),
)

zero-bit_or_below : (n a : ℕ) → a ≤ n → bit_or 0 a ≡ a
zero-bit_or_below zero zero h = refl
zero-bit_or_below zero (suc a) h = absurd (omega arith)
zero-bit_or_below (suc n) a h =
    omega (arith, bit_or_step 0 a, zero-bit_or_below n (a / 2) (omega arith))

or_zero_below : (n a : ℕ) → a ≤ n → bit_or a 0 ≡ a
or_zero_below zero zero h = refl
or_zero_below zero (suc a) h = absurd (omega arith)
or_zero_below (suc n) a h = omega (arith, bit_or_step a 0, or_zero_below n (a / 2) (omega arith))

pub zero-bit_or : (a : ℕ) → bit_or 0 a ≡ a
zero-bit_or a = zero-bit_or_below a a (omega arith)

pub bit_or-zero : (a : ℕ) → bit_or a 0 ≡ a
bit_or-zero a = or_zero_below a a (omega arith)

pub bit_or_fields : (k q r : ℕ) → r < 2 ^ k → bit_or (q * 2 ^ k) r ≡ q * 2 ^ k + r
bit_or_fields zero q zero h = bit_or-zero (q * 2 ^ 0) ∙ omega arith
bit_or_fields zero q (suc r) h = absurd (omega arith)
bit_or_fields (suc k) q r h = ground (
  arith,
  bit_or_step (q * 2 ^ suc k) r,
  ap (λ (t : ℕ). q * t) (pow-suc 2 k),
  bit_or_fields k q (r / 2),
)

-- A Boolean test at every number below a bound, by evaluation.
unfoldable pub all_below : ℕ → (ℕ → Bool) → Bool
all_below zero test = true
all_below (suc bound) test = all_below bound test && test bound

pub all_below_sound :
    (bound : ℕ) (test : ℕ → Bool) (n : ℕ) → all_below bound test ≡ true → n < bound → test n ≡ true
unfolding all_below
all_below_sound zero test n h below = absurd (omega arith)
all_below_sound (suc bound) test n h below = ground (arith, all_below_sound bound test n)

and_zero_below : (n a : ℕ) → a ≤ n → bit_and a 0 ≡ 0
and_zero_below zero zero h = refl
and_zero_below zero (suc a) h = absurd (omega arith)
and_zero_below (suc n) a h = omega (arith, bit_and_step a 0, and_zero_below n (a / 2) (omega arith))

pub bit_and-zero : (a : ℕ) → bit_and a 0 ≡ 0
bit_and-zero a = and_zero_below a a (omega arith)
