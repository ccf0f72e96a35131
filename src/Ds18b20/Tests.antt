-- ===== src/Ds18b20/Tests.antt =====
-- The sensor and the driver at a concrete command and a concrete temperature.
use linuxapp.Common.{ℕ, ◌≡◌, refl, arith, get_or, [], ◌∷◌, ◌++◌, true, false}
use linuxapp.Common.Int.{pos, negsuc}
use linuxapp.Ds18b20.{command_pins, shown, minus}
use linuxapp.Ds18b20.Sensor.{hear_all, digits, command_heard, Sensor}
use linuxapp.Ds18b20.Program.{main, main-shown, driver_read, IsSent}
use linuxapp.Ds18b20.Reading.{Sends, word_of, expected}

-- Low for long, with rubbish heard.
abbrev stuck : Sensor
stuck = record { level = false; since_edge = 700; armed = true; bits = true ∷ [] }

command_heard_example :
    (hear_all 30 (command_pins 0xcc 0xbe) stuck).bits ≡ digits 8 0xcc ++ digits 8 0xbe
command_heard_example = command_heard 30 0xcc 0xbe stuck (omega arith) (omega arith)

-- A line that sends -10.125 degrees, 0xFF5E.
abbrev cold : ℕ → ℕ
cold k = get_or (1 ∷ 1 ∷ 0 ∷ 1 ∷ 1 ∷ 1 ∷ 1 ∷ 0 ∷ 1 ∷ 0 ∷ 1 ∷ 1 ∷ 1 ∷ 1 ∷ 1 ∷ 1 ∷ 1 ∷ 1 ∷ []) k 0

cold-IsSent : IsSent (record { temperature = negsuc 161; line = cold })
unfolding Sends word_of
cold-IsSent = record {
  in_range = (omega arith, omega arith);
  present = refl;
  present_again = refl;
  low_byte = (refl, (refl, (refl, (refl, (refl, (refl, (refl, (refl, tt))))))));
  high_byte = (refl, (refl, (refl, (refl, (refl, (refl, (refl, (refl, tt))))))));
}

-- Two reads of that line, one of a low line, and one more.
main-shown_example :
    main
      (pos 3)
      (0, 0)
      (driver_read cold ∷ driver_read cold ∷ driver_read (λ k. 0) ∷ driver_read cold ∷ [])
    ≡ minus 162 ∷ minus 162 ∷ []
unfolding expected
main-shown_example =
    main-shown 3 (0, 0)
      (record { temperature = negsuc 161; line = cold }
        ∷ record { temperature = negsuc 161; line = cold }
        ∷ [])
      (λ k. 0) (driver_read cold ∷ []) (cold-IsSent, (cold-IsSent, tt)) refl

cold_shown : shown (0x5e, 0xff) ≡ minus 162
unfolding shown
cold_shown = refl
