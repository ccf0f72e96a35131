-- ===== src/Pid/Variable.antt =====
-- iMX287Learn/pid/pid5.c, the controller whose integral's part is to fade out as the error grows.
use linuxapp.Common.{ℕ, ◌-◌, ◌/◌, ltb, if◌then◌else◌}
use linuxapp.Common.Int.{pos}
use linuxapp.Pid.Arith.{Arith, SatPid, abs}

module _ (A : Arith) where
  open A use {F, literal, add, sub, mul, to_int, of_int}

  -- `pid_init`, which leaves `umax` and `umin` as the static storage has them.
  unfoldable pub pid_init : SatPid F → SatPid F
  pid_init p = record p {
    set_speed = literal 0 0;
    actual_speed = literal 0 0;
    err = literal 0 0;
    err_last = literal 0 0;
    voltage = literal 0 0;
    integral = literal 0 0;
    kp = literal 4 1;
    ki = literal 2 1;
    kd = literal 2 1;
  }

  -- The factor of the integral's part, by the integer that abs gives. `200 - abs(err)` is not
  -- negative where the last branch is taken, and `/` is the division of integers.
  unfoldable pub fading : ℕ → F
  fading a =
      if ltb 200 a
      then literal 0 0
      else if ltb a 180
      then literal 1 0
      else of_int (pos ((200 - a) / 20))

  unfoldable pub pid_realize : SatPid F → F → SatPid F
  unfolding fading
  pid_realize p speed =
      let e = sub speed p.actual_speed in
      let a = abs (to_int e) in
      let param = fading a in
      let i = if ltb 200 a then p.integral else add p.integral e in
      let v = add (add (mul p.kp e) (mul (mul param p.ki) i)) (mul p.kd (sub e p.err_last)) in
      record p {
        set_speed = speed;
        err = e;
        integral = i;
        voltage = v;
        err_last = e;
        actual_speed = mul v (literal 1 0);
      }
