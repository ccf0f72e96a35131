-- ===== src/Drivers/Programs.antt =====
-- The programs that use the drivers: 4412Drive/ledsTest/invoke_leds.c,
-- 4412Drive/invokeApplication/invokeApp.c and ok335xDriver/ioremap/main.c.
use linuxapp.Common.{
  ℕ, zero, suc, ◌==◌, if◌then◌else◌, List, [], ◌∷◌, ◌++◌, Option, none, some, ◌>>=◌, map, ◌≡◌, refl,
  ==_iff,
}
use linuxapp.Common.Int.{ℤ, pos, is_negative, is_negative-pos}
use linuxapp.Drivers.Leds.{leds_ioctl, level_after}
use linuxapp.Drivers.Userio.{Registers, userio_write}

-- A call of ioctl: the command and the argument.
pub record Ioctl : Type 0 where
  pub cmd : ℕ
  pub arg : ℕ

-- The rounds of invoke_leds.c's loop, on and off.
unfoldable led_rounds : ℕ → List Ioctl
led_rounds zero = []
led_rounds (suc i) = record { cmd = 1; arg = 1 } ∷ record { cmd = 0; arg = 1 } ∷ led_rounds i

-- `main` of invoke_leds.c, by what open answers.
unfoldable invoke_leds : ℤ → List Ioctl
unfolding led_rounds
invoke_leds fd = if is_negative fd then [] else led_rounds 4 ++ record { cmd = 1; arg = 1 } ∷ []

-- The levels that leds_ioctl gives to the pin in a run of that program.
unfoldable led_levels : ℕ → ℤ → List ℕ
unfolding invoke_leds leds_ioctl level_after
led_levels led fd = map (λ c. level_after led (leds_ioctl led c.cmd c.arg).calls 0) (invoke_leds fd)

-- Where the device can be opened, the LED goes on and off four times and stays on.
led_levels_lem : (led n : ℕ) → led_levels led (pos n) ≡ 1 ∷ 0 ∷ 1 ∷ 0 ∷ 1 ∷ 0 ∷ 1 ∷ 0 ∷ 1 ∷ []
unfolding led_levels
led_levels_lem led n = rw (is_negative-pos n) (rw ((==_iff led led).1 refl) refl)

-- `main` of invokeApp.c; a descriptor that open has refused is closed too.
unfoldable invoke_app : ℤ → List Ioctl
invoke_app fd = if is_negative fd then [] else record { cmd = 1; arg = 6 } ∷ []

-- A round of ioremap/main.c: `val` is written, and exchanged for the next. The driver answers 0,
-- and a negative answer would end the program.
unfoldable userio_round : ℕ × Registers → Option (ℕ × Registers)
unfolding userio_write
userio_round (val, r) =
    let (result, r') = userio_write val r in
    if is_negative result then none else some ((if val == 0 then 1 else 0), r')

-- The rounds of its loop, the first with 0.
unfoldable userio_rounds : ℕ → ℕ × Registers → Option (ℕ × Registers)
unfolding userio_round
userio_rounds zero p = some p
userio_rounds (suc n) p = userio_round p >>= userio_rounds n
