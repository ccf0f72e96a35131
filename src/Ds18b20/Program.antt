-- ===== src/Ds18b20/Program.antt =====
-- ok335xDriver/ds18b20/main.c over the driver: the program's loop, which ends where a read fails.
use linuxapp.Common.{
  ℕ, ◌%◌, ◌/◌, if◌then◌else◌, Option, none, some, List, [], ◌∷◌, ◌++◌, map, All, true, ◌≡◌, refl,
  ap, ◌∙◌,
}
use linuxapp.Common.Int.{ℤ, pos, is_negative, is_negative-pos}
use linuxapp.Ds18b20.{read_ds18b20, ds18b20_reset, Shown, shown}
use linuxapp.Ds18b20.Reading.{Sends, word_of, expected, InRange, read_ds18b20-shown}

-- The array `result` after a read: what the driver copied, or what it held before.
abbrev latest : Option (ℕ × ℕ) → ℕ × ℕ → ℕ × ℕ
latest none result = result
latest (some bytes) result = bytes

-- The rounds of the loop, by what read answers and copies.
unfoldable measurements : ℕ × ℕ → List (ℤ × Option (ℕ × ℕ)) → List Shown
unfolding shown
measurements result [] = []
measurements result ((ret, copied) ∷ reads) =
    let now = latest copied result in
    let rest = measurements now reads in if is_negative ret then [] else shown now ∷ rest

-- `main`, by what open answers and what stands in the array at first.
unfoldable pub main : ℤ → ℕ × ℕ → List (ℤ × Option (ℕ × ℕ)) → List Shown
unfolding measurements
main fd result reads = if is_negative fd then [] else measurements result reads

-- What the driver answers a read of the two bytes, where they can be copied.
abbrev pub driver_read : (ℕ → ℕ) → ℤ × Option (ℕ × ℕ)
driver_read line = read_ds18b20 line true 2

-- A temperature, and the levels of a line on which a sensor answers both resets and sends it.
pub record Measurement : Type 0 where
  pub temperature : ℤ
  pub line : ℕ → ℕ

pub record IsSent (m : Measurement) : Type 0 where
  pub in_range : InRange m.temperature
  pub present : m.line 0 ≡ 1
  pub present_again : m.line 1 ≡ 1
  pub low_byte : Sends m.line 2 8 (word_of m.temperature % 256)
  pub high_byte : Sends m.line 10 8 (word_of m.temperature / 256)

-- A read that fails ends the loop, whatever would follow.
measurements-failed :
    (result : ℕ × ℕ) (line : ℕ → ℕ) (later : List (ℤ × Option (ℕ × ℕ)))
    → line 0 ≡ 0
    → measurements result (driver_read line ∷ later) ≡ []
unfolding measurements read_ds18b20 ds18b20_reset
measurements-failed result line later absent = rw absent refl

-- One that the sensor answers shows its temperature.
measurements-sent :
    (result : ℕ × ℕ) (m : Measurement) (reads : List (ℤ × Option (ℕ × ℕ)))
    → IsSent m
    → measurements result (driver_read m.line ∷ reads)
      ≡ expected m.temperature
        ∷ measurements (word_of m.temperature % 256, word_of m.temperature / 256) reads
unfolding measurements
measurements-sent result m reads sent =
    let (answer, text) =
      read_ds18b20-shown m.line 2 m.temperature sent.in_range sent.present sent.present_again
        sent.low_byte sent.high_byte in
    rw answer (
      ap (λ x. x ∷ measurements (word_of m.temperature % 256, word_of m.temperature / 256) reads)
        text)

measurements-append :
    (ms : List Measurement) (result : ℕ × ℕ) (line : ℕ → ℕ) (later : List (ℤ × Option (ℕ × ℕ)))
    → All IsSent ms
    → line 0 ≡ 0
    → measurements result (map (λ m. driver_read m.line) ms ++ driver_read line ∷ later)
      ≡ map (λ m. expected m.temperature) ms
measurements-append [] result line later h absent = measurements-failed result line later absent
measurements-append (m ∷ ms) result line later (sent, h) absent =
    measurements-sent result m _ sent
    ∙ ap (◌∷◌ (expected m.temperature)) (measurements-append ms _ line later h absent)

-- Program and driver together, once the device is open: if a sensor answers the resets and sends a
-- temperature in each of a row of reads, the low byte first, and in the read after them the line
-- is low where the first reset looks at it, the program prints just those temperatures in order,
-- and nothing more whatever would follow, since it ends there.
pub main-shown :
    (n : ℕ) (result : ℕ × ℕ) (ms : List Measurement) (line : ℕ → ℕ)
    (later : List (ℤ × Option (ℕ × ℕ)))
    → All IsSent ms
    → line 0 ≡ 0
    → main (pos n) result (map (λ m. driver_read m.line) ms ++ driver_read line ∷ later)
      ≡ map (λ m. expected m.temperature) ms
unfolding main
main-shown n result ms line later h absent =
    rw (is_negative-pos n) (measurements-append ms result line later h absent)
