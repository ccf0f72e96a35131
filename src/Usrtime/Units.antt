-- ===== src/Usrtime/Units.antt =====
-- How the three units of the system time go together.
use linuxapp.Common.{◌*◌, ◌/◌, ◌<◌, ◌≤◌, ◌^◌, ◌≡◌, arith}
use linuxapp.Common.Timeval.{Timeval, micros, IsNormal}
use linuxapp.Usrtime.{get_system_time_milli, get_system_time_micro, get_system_time_nano}

-- At one reading of the clock whose nanoseconds fit in 64 bits, the three functions agree: the
-- milliseconds are the microseconds without their last three digits, the nanoseconds have three
-- zeros more. And a later reading gives no smaller number in any unit.
system_time_units :
    (t later : Timeval)
    → IsNormal t
    → IsNormal later
    → micros t ≤ micros later
    → micros later * 1000 < 2 ^ 64
    → (get_system_time_milli t ≡ get_system_time_micro t / 1000)
      × (get_system_time_nano t ≡ get_system_time_micro t * 1000)
      × (get_system_time_milli t ≤ get_system_time_milli later)
      × (get_system_time_micro t ≤ get_system_time_micro later)
      × (get_system_time_nano t ≤ get_system_time_nano later)
unfolding get_system_time_milli get_system_time_micro get_system_time_nano
system_time_units t later h k le fits =
    (omega arith, omega arith, omega arith, omega arith, omega arith)
