-- ===== src/Ds18b20.antt =====
-- ok335xDriver/ds18b20: the driver of a one-wire temperature sensor on a pin, ds18b20.c, and the
-- program that shows the temperature, main.c. `line k` is what the k-th gpio_get_value returns.
pub mod Sensor
pub mod Reading
pub mod Program
mod Tests
use linuxapp.Common.{
  ℕ, zero, suc, ◌+◌, ◌-◌, ◌*◌, ◌/◌, ◌^◌, ◌==◌, u16, bit_and, bit_or, Bool, true, false,
  if◌then◌else◌, Option, none, some, List, [], ◌∷◌, ◌++◌,
}
use linuxapp.Common.Int.{ℤ, pos, negsuc}

-- A call on the pin: gpio_direction_output with its level, gpio_direction_input, gpio_set_value,
-- and udelay with its microseconds.
pub data PinCall : Type 0 where
  output : Bool → PinCall
  input : PinCall
  set : Bool → PinCall
  udelay : ℕ → PinCall

-- The calls of ds18b20_reset before the read of the pin.
unfoldable pub reset_pins : List PinCall
reset_pins =
    output false
    ∷ set true
    ∷ udelay 10
    ∷ set false
    ∷ udelay 600
    ∷ set true
    ∷ udelay 60
    ∷ input
    ∷ udelay 400
    ∷ []

-- `ds18b20_reset`: what the one read of the pin gives.
unfoldable pub ds18b20_reset : (ℕ → ℕ) → ℕ → ℕ
ds18b20_reset line k = line k

-- The calls in one round of ds18b20_write's loop.
unfoldable pub write_slot : Bool → List PinCall
write_slot bit =
    set false
    ∷ udelay 5
    ∷ ((if bit then set true ∷ [] else []) ++ udelay 60 ∷ set true ∷ udelay 1 ∷ [])

unfoldable pub write_bits : ℕ → ℕ → List PinCall
unfolding write_slot
write_bits zero byte = []
write_bits (suc n) byte =
    write_slot (if bit_and byte 0x01 == 0 then false else true) ++ write_bits n (byte / 2)

-- `ds18b20_write(data)`
unfoldable pub ds18b20_write : ℕ → List PinCall
unfolding write_bits
ds18b20_write byte = output false ∷ write_bits 8 byte

-- The value that n rounds of ds18b20_read's loop make of `byte`, with the k-th read of the pin as
-- the first.
unfoldable pub read_bits : (ℕ → ℕ) → ℕ → ℕ → ℕ → ℕ
read_bits line zero k byte = byte
read_bits line (suc n) k byte =
    let half = byte / 2 in read_bits line n (k + 1) (if line k == 0 then half else bit_or half 0x80)

-- `ds18b20_read`, from the k-th read of the pin.
unfoldable pub ds18b20_read : (ℕ → ℕ) → ℕ → ℕ
unfolding read_bits
ds18b20_read line k = read_bits line 8 k 0x00

-- `read_ds18b20`: its value, and the two bytes copied to the user. `copied` tells whether
-- copy_to_user succeeds. The third reset's read of the pin is not used.
unfoldable pub read_ds18b20 : (ℕ → ℕ) → Bool → ℕ → ℤ × Option (ℕ × ℕ)
unfolding ds18b20_reset ds18b20_read
read_ds18b20 line copied count =
    if ds18b20_reset line 0 == 0
    then (negsuc 0, none)
    else if ds18b20_reset line 1 == 0
    then (negsuc 0, none)
    else if copied
    then (pos count, some (ds18b20_read line 2, ds18b20_read line 10))
    else (negsuc 13, none)

-- `open_ds18b20`, by what the read of the pin gives: its value, which is 0 even where no sensor
-- answers, and its calls. `release_ds18b20` returns 0 too, and calls nothing.
unfoldable open_ds18b20 : (ℕ → ℕ) → ℤ × List PinCall
unfolding reset_pins
open_ds18b20 line = (pos 0, reset_pins)

unfoldable release_ds18b20 : ℤ
release_ds18b20 = pos 0

-- What read_ds18b20 sends: a reset and two bytes, each of the two times.
unfoldable pub command_pins : ℕ → ℕ → List PinCall
unfolding reset_pins ds18b20_write
command_pins rom function = reset_pins ++ ds18b20_write rom ++ ds18b20_write function

-- What main prints: `Temperature = `, `Temperature = -`, in sixteenths of a degree (0.0625), or
-- the message on the sign bits.
pub data Shown : Type 0 where
  plus minus : ℕ → Shown
  sign_error : Shown

-- The macro S.
abbrev pub sign_bits : ℕ
sign_bits = 0xF800

unfoldable pub shown_word : ℕ → Shown
shown_word word =
    if bit_and word sign_bits == 0
    then plus word
    else if bit_and word sign_bits == sign_bits
    then minus (u16 (65535 - word + 1))
    else sign_error

-- The loop's body in main, from the two bytes that were read.
unfoldable pub shown : ℕ × ℕ → Shown
unfolding shown_word
shown (low, high) = shown_word (bit_or (u16 (high * 2 ^ 8)) low)
