-- ===== src/Ds18b20/Sensor.antt =====
-- What the sensor hears. It is described here on its own terms: a falling edge of the line starts a
-- slot, the level `at` microseconds later is a bit, and a low line of 480 microseconds or more is a
-- reset, after which the bits are counted anew.
use linuxapp.Common.{
  ℕ, zero, suc, ◌+◌, ◌/◌, ◌%◌, ◌≤◌, ◌<◌, ◌==◌, ltb, leb, ◌≡◌, refl, arith, Bool, true, false, ◌&&◌,
  if◌then◌else◌, List, [], ◌∷◌, ◌++◌, ap, sym, ◌∙◌, bit_and,
}
use linuxapp.Common.Masks.{bit_and-one}
use mathlib.Core.List.{append-nil, append_assoc}
use linuxapp.Ds18b20.{
  PinCall, output, input, set, udelay, reset_pins, write_slot, write_bits, ds18b20_write,
  command_pins,
}

pub record Sensor : Type 0 where
  pub level : Bool
  pub since_edge : ℕ
  pub armed : Bool
  pub bits : List Bool

-- The line driven to a level.
abbrev pub drive : Bool → Sensor → Sensor
drive v s =
    if s.level
    then (if v then s else record s { level = false; since_edge = 0; armed = true })
    else if v
    then (if leb 480 s.since_edge
        then record s { level = true; armed = false; bits = [] }
        else record s { level = true })
    else s

abbrev pub elapse : ℕ → ℕ → Sensor → Sensor
elapse at d s =
    if s.armed && (leb s.since_edge at && ltb at (s.since_edge + d))
    then record s { since_edge = s.since_edge + d; armed = false; bits = s.bits ++ s.level ∷ [] }
    else record s { since_edge = s.since_edge + d }

-- The line is pulled up where the pin does not drive it.
abbrev pub hear : ℕ → PinCall → Sensor → Sensor
hear at (output v) s = drive v s
hear at input s = drive true s
hear at (set v) s = drive v s
hear at (udelay d) s = elapse at d s

unfoldable pub hear_all : ℕ → List PinCall → Sensor → Sensor
hear_all at [] s = s
hear_all at (c ∷ cs) s = hear_all at cs (hear at c s)

-- The digits of a number, the lowest first.
unfoldable pub digits : ℕ → ℕ → List Bool
digits zero d = []
digits (suc n) d = (if d % 2 == 0 then false else true) ∷ digits n (d / 2)

hear_all-append :
    (at : ℕ) (cs ds : List PinCall) (s : Sensor)
    → hear_all at (cs ++ ds) s ≡ hear_all at ds (hear_all at cs s)
unfolding hear_all
hear_all-append at [] ds s = refl
hear_all-append at (c ∷ cs) ds s = hear_all-append at cs ds (hear at c s)

-- A sensor between two slots, with the bits that it has.
abbrev waiting : ℕ → List Bool → Sensor
waiting clock bits = record { level = true; since_edge = clock; armed = false; bits = bits }

slot_lem :
    (at clock : ℕ) (bit : Bool) (bits : List Bool)
    → 5 ≤ at
    → at < 65
    → hear_all at (write_slot bit) (waiting clock bits) ≡ waiting 66 (bits ++ bit ∷ [])
unfolding hear_all write_slot
slot_lem at clock true bits h k = ground arith
slot_lem at clock false bits h k = ground arith

level-drive : (v : Bool) (s : Sensor) → (drive v s).level ≡ v
level-drive v s = ground arith

level-elapse : (at d : ℕ) (s : Sensor) → (elapse at d s).level ≡ s.level
level-elapse at d s = ground arith

-- A line that was high, low for 600 microseconds, and high again: the bits are gone.
long_low :
    (at : ℕ) (s : Sensor)
    → s.level ≡ true
    → drive true (elapse at 600 (drive false s)) ≡ waiting 600 []
long_low at s h = rw h (ground arith)

reset_lem : (at : ℕ) (s : Sensor) → hear_all at reset_pins s ≡ waiting 1060 []
unfolding hear_all reset_pins
reset_lem at s =
    ap (λ r. elapse at 400 (drive true (elapse at 60 r)))
      (long_low at _
        (level-elapse at 10 (drive true (drive false s)) ∙ level-drive true (drive false s)))

-- One level more on a line that is already low.
output_first :
    (at clock : ℕ) (bits : List Bool) (bit : Bool) (cs : List PinCall)
    → hear_all at (output false ∷ write_slot bit ++ cs) (waiting clock bits)
      ≡ hear_all at (write_slot bit ++ cs) (waiting clock bits)
unfolding hear_all write_slot
output_first at clock bits bit cs = refl

write_bits_lem :
    (at : ℕ) (n clock byte : ℕ) (bits : List Bool)
    → 5 ≤ at
    → at < 65
    → (c : ℕ) × (hear_all at (write_bits n byte) (waiting clock bits)
        ≡ waiting c (bits ++ digits n byte))
unfolding hear_all write_bits digits
write_bits_lem at zero clock byte bits h k = (clock, ap (waiting clock) (sym (append-nil bits)))
write_bits_lem at (suc n) clock byte bits h k =
    let bit = if bit_and byte 0x01 == 0 then false else true in
    let (c, e) = write_bits_lem at n 66 (byte / 2) (bits ++ bit ∷ []) h k in
    (
      c,
      hear_all-append at (write_slot bit) (write_bits n (byte / 2)) (waiting clock bits)
          ∙ ap (hear_all at (write_bits n (byte / 2))) (slot_lem at clock bit bits h k)
          ∙ e
          ∙ ap (waiting c) (
              append_assoc bits (bit ∷ []) _
              ∙ ap (λ b. bits ++ (if b == 0 then false else true) ∷ digits n (byte / 2))
                  (bit_and-one byte)),
    )

write_lem :
    (at clock byte : ℕ) (bits : List Bool)
    → 5 ≤ at
    → at < 65
    → (c : ℕ) × (hear_all at (ds18b20_write byte) (waiting clock bits)
        ≡ waiting c (bits ++ digits 8 byte))
unfolding ds18b20_write write_bits hear_all
write_lem at clock byte bits h k = write_bits_lem at 8 clock byte bits h k

-- Whatever the sensor has heard before, after a reset and two written bytes it has heard exactly
-- their sixteen bits, the lowest of each byte first, if it reads the line between 5 and 64
-- microseconds after each falling edge. (A sensor may read it between 15 and 60.)
pub command_heard :
    (at rom function : ℕ) (s : Sensor)
    → 5 ≤ at
    → at < 65
    → (hear_all at (command_pins rom function) s).bits ≡ digits 8 rom ++ digits 8 function
unfolding command_pins
command_heard at rom function s h k =
    let (c, first) = write_lem at 1060 rom [] h k in
    let (d, second) = write_lem at c function (digits 8 rom) h k in
    ap (λ r. r.bits)
      (hear_all-append at reset_pins _ s
        ∙ ap (hear_all at _) (reset_lem at s)
        ∙ hear_all-append at (ds18b20_write rom) (ds18b20_write function) (waiting 1060 [])
        ∙ ap (hear_all at (ds18b20_write function)) first
        ∙ second)
