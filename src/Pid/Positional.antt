-- ===== src/Pid/Positional.antt =====
-- iMX287Learn/pid/pid0.c, the positional controller, and pid2_0.c, the same with the integral
-- switched off at large errors. pid_realize returns the new `actual_speed`.
use linuxapp.Common.{if◌then◌else◌}
use linuxapp.Pid.Arith.{Arith, Pid, is_large}

module _ (A : Arith) where
  open A use {F, literal, add, sub, mul}

  -- `pid_init` of pid0.c. It leaves `voltage` and `integral` as the static storage has them.
  unfoldable pub pid_init : Pid F → Pid F
  pid_init p = record p {
    set_speed = literal 0 0;
    actual_speed = literal 0 0;
    err = literal 0 0;
    err_last = literal 0 0;
    kp = literal 2 1;
    ki = literal 15 2;
    kd = literal 2 1;
  }

  -- `pid_init` of pid2_0.c, the same.
  unfoldable pub pid_init_separated : Pid F → Pid F
  unfolding pid_init
  pid_init_separated p = pid_init p

  -- `pid_realize` of pid0.c.
  unfoldable pub pid_realize : Pid F → F → Pid F
  pid_realize p speed =
      let e = sub speed p.actual_speed in
      let i = add p.integral e in
      let v = add (add (mul p.kp e) (mul p.ki i)) (mul p.kd (sub e p.err_last)) in
      record p {
        set_speed = speed;
        err = e;
        integral = i;
        voltage = v;
        err_last = e;
        actual_speed = mul v (literal 1 0);
      }

  -- `pid_realize` of pid2_0.c.
  unfoldable pub pid_realize_separated : Pid F → F → Pid F
  unfolding is_large
  pid_realize_separated p speed =
      let e = sub speed p.actual_speed in
      let param = if is_large A e then literal 0 0 else literal 1 0 in
      let i = if is_large A e then p.integral else add p.integral e in
      let v = add (add (mul p.kp e) (mul (mul param p.ki) i)) (mul p.kd (sub e p.err_last)) in
      record p {
        set_speed = speed;
        err = e;
        integral = i;
        voltage = v;
        err_last = e;
        actual_speed = mul v (literal 1 0);
      }
