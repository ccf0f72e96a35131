-- ===== src/Drivers/Tests.antt =====
-- The drivers' starts and ends with concrete answers.
use linuxapp.Common.{some, List, ◌+◌, true, [], ◌∷◌, ◌≡◌}
use linuxapp.Common.Int.{pos, negsuc}
use linuxapp.Drivers.{account_all, nothing, left_after}
use linuxapp.Drivers.Onewire.{w1_gpio, ds18b20_init, ds18b20_exit, ds18b20_init_lem}
use linuxapp.Drivers.Onewire
use linuxapp.Drivers.Userio.{
  Registers, userio_init, userio_exit, userio_init_lem, gpio1, start_of, registers_of, set_up,
}
use linuxapp.Drivers.CardetDev
use linuxapp.Drivers.Platform.{Event, start, end, probe, remove, ioctl, calls_of, results_of}
use linuxapp.Drivers.Leds.{view, answer, leds_step, level_after, leds_step_lem}
use linuxapp.Drivers.CardetDev.{
  cardet_irqdev_init, cardet_irqdev_exit, cardet_irqdev_init_lem, granted,
}

-- No number could be had; the pin is granted.
abbrev refused : Onewire.Answers
refused = record { region = negsuc 0; added = pos 0; made = true; pin = pos 0 }

ds18b20_init_lem_example :
    left_after ds18b20_exit (ds18b20_init 0 refused)
    ≡ some (pos 0, record nothing { pins = w1_gpio ∷ [] })
ds18b20_init_lem_example = ds18b20_init_lem 0 refused

abbrev registers : Registers
registers = record { oe = 0xFFFFFFFF; setdataout = 0; dataout = 0x12345678 }

userio_init_lem_example :
    (left_after userio_exit (start_of (userio_init 0 refused true registers))
      ≡ some (
        pos 0,
        record nothing { maps = (gpio1 + 0x13C) ∷ (gpio1 + 0x194) ∷ (gpio1 + 0x134) ∷ [] },
      ))
    × (registers_of (userio_init 0 refused true registers) ≡ some (set_up registers))
userio_init_lem_example = userio_init_lem 0 refused true registers

-- cdev_add fails, everything else succeeds.
abbrev not_added : CardetDev.Answers
not_added = record {
  pin = λ n. pos 0;
  irq = λ n. pos 0;
  region = pos 0;
  allocated = true;
  added = negsuc 11;
  made = true;
}

cardet_irqdev_init_lem_example :
    let r = cardet_irqdev_init (λ n. n + 100) not_added in
    (r.result ≡ pos 0)
    × (account_all r.calls nothing ≡ record (granted (λ n. n + 100) not_added) { object = true })
cardet_irqdev_init_lem_example = cardet_irqdev_init_lem (λ n. n + 100) not_added

-- The LED is switched on, and the driver goes.
abbrev events : List Event
events = start (pos 0) ∷ probe (pos 0) (pos 0) ∷ ioctl 5 0 ∷ remove ∷ end ∷ []

leds_step_lem_example :
    (account_all (calls_of (leds_step 37) events) nothing ≡ record nothing { pins = 37 ∷ [] })
    × (level_after 37 (calls_of (leds_step 37) events) 0 ≡ 1)
    × (results_of (leds_step 37) events ≡ pos 0 ∷ pos 0 ∷ pos 0 ∷ pos 0 ∷ pos 0 ∷ [])
unfolding view answer
leds_step_lem_example = leds_step_lem 37 events
