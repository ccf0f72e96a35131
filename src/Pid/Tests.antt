-- ===== src/Pid/Tests.antt =====
-- The controllers at concrete inputs, with integers for the floats.
use linuxapp.Common.{◌/◌, ◌^◌, ◌≡◌, refl, [], ◌∷◌}
use linuxapp.Common.Int.{ℤ, pos, pos_part, ltb_ℤ, ◌+ℤ◌, ◌-ℤ◌, ◌*ℤ◌, negsuc}
use linuxapp.Pid.Arith.{Arith, Pid, SatPid}
use linuxapp.Pid.Arith.{is_large}
use linuxapp.Pid.Programs.{outputs}
use linuxapp.Pid.Variable
use linuxapp.Pid.Positional
use linuxapp.Pid.Windup
use linuxapp.Pid.Windup.{drives_out, integral-pid_realize}
use linuxapp.Common.{if◌then◌else◌}
use linuxapp.Common.{◌||◌}

abbrev integers : Arith
integers = record {
  F = ℤ;
  literal = λ n k. pos (n / 10 ^ k);
  add = ◌+ℤ◌;
  sub = ◌-ℤ◌;
  mul = ◌*ℤ◌;
  div = λ a b. pos (pos_part a / pos_part b);
  lt = ltb_ℤ;
  to_int = λ a. a;
  of_int = λ a. a;
}

abbrev zero_pid : Pid ℤ
zero_pid = record {
  set_speed = pos 0;
  actual_speed = pos 0;
  err = pos 0;
  err_last = pos 0;
  kp = pos 0;
  ki = pos 0;
  kd = pos 0;
  voltage = pos 0;
  integral = pos 0;
}

abbrev above : SatPid ℤ
above =
    record (Windup.pid_init integers (record {
      set_speed = pos 0;
      actual_speed = pos 0;
      err = pos 0;
      err_last = pos 0;
      kp = pos 0;
      ki = pos 0;
      kd = pos 0;
      voltage = pos 0;
      integral = pos 0;
      umax = pos 0;
      umin = pos 0;
    })) { actual_speed = pos 401; integral = pos 7 }

-- The first two outputs of pid0.c's controller with these factors.
two_outputs :
    outputs
      (Positional.pid_realize integers)
      (λ p. p.actual_speed)
      (record zero_pid { kp = pos 1; ki = pos 2; kd = pos 3 })
      (pos 10 ∷ pos 60 ∷ [])
    ≡ pos 60 ∷ negsuc 9 ∷ []
unfolding outputs Positional.pid_realize ◌+ℤ◌ ◌-ℤ◌ ◌*ℤ◌
two_outputs = refl

integral-pid_realize_example :
    let e = pos 500 -ℤ pos 401 in
    ((Windup.pid_realize integers above (pos 500)).integral
      ≡ (if is_large integers e || drives_out integers above e then pos 7 else pos 7 +ℤ e))
    × ((Windup.pid_realize_halved integers above (pos 500)).integral
        ≡ (Windup.pid_realize integers above (pos 500)).integral)
unfolding Windup.pid_init
integral-pid_realize_example = integral-pid_realize integers above (pos 500)
