-- ===== src/Pid/Windup.antt =====
-- iMX287Learn/pid/pid3.c, whose integral does not wind up beyond the limits of the output, and
-- pid4.c, which differs from it only in halving the integral's part.
use linuxapp.Common.{Bool, if◌then◌else◌, ◌≡◌, refl, arith, ◌&&◌, ◌||◌, ap, not}
use linuxapp.Pid.Arith.{Arith, SatPid, is_large}

module _ (A : Arith) where
  open A use {F, literal, add, sub, mul, div, lt}

  -- `pid_init` of pid3.c. The ints 400 and -200 are converted.
  unfoldable pub pid_init : SatPid F → SatPid F
  pid_init p = record {
    set_speed = literal 0 0;
    actual_speed = literal 0 0;
    err = literal 0 0;
    err_last = literal 0 0;
    voltage = literal 0 0;
    integral = literal 0 0;
    kp = literal 2 1;
    ki = literal 1 1;
    kd = literal 2 1;
    umax = literal 400 0;
    umin = sub (literal 0 0) (literal 200 0);
  }

  -- `pid_init` of pid4.c, the same.
  unfoldable pub pid_init_halved : SatPid F → SatPid F
  unfolding pid_init
  pid_init_halved p = pid_init p

  -- The branches of pid_realize: the factor of the integral's part, and the new integral.
  unfoldable pub limited : SatPid F → F → F × F
  unfolding is_large
  limited p e =
      if lt p.umax p.actual_speed
      then (if is_large A e
          then (literal 0 0, p.integral)
          else (literal 1 0, (if lt e (literal 0 0) then add p.integral e else p.integral)))
      else if lt p.actual_speed p.umin
      then (if is_large A e
          then (literal 0 0, p.integral)
          else (literal 1 0, (if lt (literal 0 0) e then add p.integral e else p.integral)))
      else if is_large A e
      then (literal 0 0, p.integral)
      else (literal 1 0, add p.integral e)

  -- The new state for a speed, the error, the integral and the integral's part of the output.
  driven : SatPid F → F → F → F → F → SatPid F
  driven p speed e i part =
      let v = add (add (mul p.kp e) part) (mul p.kd (sub e p.err_last)) in
      record p {
        set_speed = speed;
        err = e;
        integral = i;
        voltage = v;
        err_last = e;
        actual_speed = mul v (literal 1 0);
      }

  -- `pid_realize` of pid3.c.
  unfoldable pub pid_realize : SatPid F → F → SatPid F
  unfolding limited driven
  pid_realize p speed =
      let e = sub speed p.actual_speed in
      let (param, i) = limited p e in driven p speed e i (mul (mul param p.ki) i)

  -- `pid_realize` of pid4.c.
  unfoldable pub pid_realize_halved : SatPid F → F → SatPid F
  unfolding limited driven
  pid_realize_halved p speed =
      let e = sub speed p.actual_speed in
      let (param, i) = limited p e in
      driven p speed e i (div (mul (mul param p.ki) i) (literal 2 0))

  -- The output is beyond a limit and the error would drive it further.
  abbrev pub drives_out : SatPid F → F → Bool
  drives_out p e =
      (lt p.umax p.actual_speed && not (lt e (literal 0 0)))
      || (not (lt p.umax p.actual_speed) && lt p.actual_speed p.umin && not (lt (literal 0 0) e))

  limited_lem :
      (p : SatPid F) (e : F)
      → limited p e ≡ (
        (if is_large A e then literal 0 0 else literal 1 0),
        (if is_large A e || drives_out p e then p.integral else add p.integral e),
      )
  unfolding limited is_large
  limited_lem p e = ground arith

  -- The integral of pid3.c and of pid4.c after any step: it is kept where the error is large, or
  -- where the output is beyond a limit and the error drives it further; else the error is added.
  pub integral-pid_realize :
      (p : SatPid F) (speed : F)
      → let e = sub speed p.actual_speed in
        ((pid_realize p speed).integral
          ≡ (if is_large A e || drives_out p e then p.integral else add p.integral e))
        × ((pid_realize_halved p speed).integral ≡ (pid_realize p speed).integral)
  unfolding pid_realize pid_realize_halved driven
  integral-pid_realize p speed = (ap (λ r. r.1) (limited_lem p (sub speed p.actual_speed)), refl)
