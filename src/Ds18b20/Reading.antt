-- ===== src/Ds18b20/Reading.antt =====
-- The bytes that the driver reads from the pin, and the temperature that the program makes of them.
use linuxapp.Common.{
  ℕ, zero, suc, ◌+◌, ◌-◌, ◌*◌, ◌/◌, ◌%◌, ◌^◌, ◌<◌, ◌≡◌, refl, arith, ap, ◌∙◌, true, some, bit_or,
  ◌==◌, if◌then◌else◌, u16, ◌≤◌, ==_iff,
}
use linuxapp.Common.Masks.{bit_and-upper_5}
use linuxapp.Common.Bits.{bit_or_fields, all_below, all_below_sound}
use linuxapp.Common.Int.{ℤ, pos, negsuc, pos_part, neg_part}
use linuxapp.Ds18b20.{
  read_bits, ds18b20_read, read_ds18b20, Shown, plus, minus, shown, shown_word, ds18b20_reset,
}

-- The next n reads of the pin are the digits of d, the lowest first.
unfoldable pub Sends : (ℕ → ℕ) → ℕ → ℕ → ℕ → Type 0
Sends line k zero d = Unit
Sends line k (suc n) d = (line k ≡ d % 2) × Sends line (k + 1) n (d / 2)

top_bit : (h : ℕ) → h < 128 → bit_or h 0x80 ≡ h + 128
unfolding all_below
top_bit h l =
    (==_iff (bit_or h 0x80) (h + 128)).0
      (all_below_sound 128 (λ h. bit_or h 0x80 == h + 128) h refl l)

shift_in :
    (level d byte : ℕ)
    → level ≡ d % 2
    → byte < 256
    → (if level == 0 then byte / 2 else bit_or (byte / 2) 0x80) ≡ byte / 2 + 128 * (d % 2)
shift_in level d byte e h = ground (arith, top_bit (byte / 2) (omega arith))

-- The byte that n digits make when each comes in at the top.
assembled : ℕ → ℕ → ℕ → ℕ
assembled zero d byte = byte
assembled (suc n) d byte = assembled n (d / 2) (byte / 2 + 128 * (d % 2))

read_bits-Sends :
    (line : ℕ → ℕ) (n k d byte : ℕ)
    → Sends line k n d
    → byte < 256
    → read_bits line n k byte ≡ assembled n d byte
unfolding read_bits Sends assembled
read_bits-Sends line zero k d byte sends h = refl
read_bits-Sends line (suc n) k d byte (now, later) h =
    ap (read_bits line n (k + 1)) (shift_in (line k) d byte now h)
    ∙ read_bits-Sends line n (k + 1) (d / 2) (byte / 2 + 128 * (d % 2)) later (omega arith)

assembled_byte : (d : ℕ) → d < 256 → assembled 8 d 0 ≡ d
unfolding assembled
assembled_byte d h = omega arith

ds18b20_read-Sends : (line : ℕ → ℕ) (k d : ℕ) → Sends line k 8 d → d < 256 → ds18b20_read line k ≡ d
unfolding ds18b20_read
ds18b20_read-Sends line k d sends h =
    read_bits-Sends line 8 k d 0 sends (omega arith) ∙ assembled_byte d h

-- The sensor's word for a temperature in sixteenths of a degree: sixteen bits, two's complement.
unfoldable pub word_of : ℤ → ℕ
word_of (pos n) = n
word_of (negsuc n) = 65535 - n

-- What the program should print for it.
unfoldable pub expected : ℤ → Shown
expected (pos n) = plus n
expected (negsuc n) = minus (n + 1)

-- The eleven bits and the sign of the sensor's range.
abbrev pub InRange : ℤ → Type 0
InRange z = (pos_part z < 2048) × (neg_part z ≤ 2048)

bytes_joined : (w : ℕ) → w < 65536 → bit_or (u16 (w / 256 * 2 ^ 8)) (w % 256) ≡ w
bytes_joined w h =
    ap (λ high. bit_or high (w % 256)) (small (w / 256) (omega arith))
    ∙ bit_or_fields 8 (w / 256) (w % 256) (omega arith)
    ∙ omega arith
  where
    small : (q : ℕ) → q < 256 → u16 (q * 2 ^ 8) ≡ q * 2 ^ 8
    small q l = omega arith

word_of-lt : (z : ℤ) → InRange z → word_of z < 65536
unfolding word_of
word_of-lt (pos n) h = omega arith
word_of-lt (negsuc n) h = omega arith

shown_word-word_of : (z : ℤ) → InRange z → shown_word (word_of z) ≡ expected z
unfolding shown_word word_of expected
shown_word-word_of (pos n) (h, _) = rw (bit_and-upper_5 n (omega arith)) (ground arith)
shown_word-word_of (negsuc n) (_, h) = rw (bit_and-upper_5 (65535 - n) (omega arith)) (ground arith)

-- A sensor that answers both resets and sends the word of a temperature, the low byte first: the
-- driver returns what it was asked for and copies the two bytes, and the program prints just that
-- temperature.
pub read_ds18b20-shown :
    (line : ℕ → ℕ) (count : ℕ) (z : ℤ)
    → InRange z
    → line 0 ≡ 1
    → line 1 ≡ 1
    → Sends line 2 8 (word_of z % 256)
    → Sends line 10 8 (word_of z / 256)
    → (read_ds18b20 line true count ≡ (pos count, some (word_of z % 256, word_of z / 256)))
      × (shown (word_of z % 256, word_of z / 256) ≡ expected z)
unfolding read_ds18b20 ds18b20_reset shown
read_ds18b20-shown line count z range first second low high = (
  rw first (
      rw second (
        rw (ds18b20_read-Sends line 2 _ low (omega arith))
          (rw (ds18b20_read-Sends line 10 _ high (omega (arith, word_of-lt z range))) refl))),
  ap shown_word (bytes_joined (word_of z) (word_of-lt z range)) ∙ shown_word-word_of z range,
)
