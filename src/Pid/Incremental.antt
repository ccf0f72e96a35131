-- ===== src/Pid/Incremental.antt =====
-- iMX287Learn/pid/pid1.c, the incremental controller, and pid2_1.c, the same with the integral part
-- switched off at large errors.
use linuxapp.Common.{if◌then◌else◌}
use linuxapp.Pid.Arith.{Arith, IncPid, is_large}

module _ (A : Arith) where
  open A use {F, literal, add, sub, mul}

  -- `pid_init` of pid1.c, and of pid2_1.c with 0.04 for its integral factor.
  unfoldable pub unset : F → IncPid F
  unset ki = record {
    set_speed = literal 0 0;
    actual_speed = literal 0 0;
    err = literal 0 0;
    err_next = literal 0 0;
    err_last = literal 0 0;
    kp = literal 2 1;
    ki = ki;
    kd = literal 2 1;
  }

  unfoldable pub pid_init : IncPid F → IncPid F
  unfolding unset
  pid_init p = unset (literal 15 3)

  unfoldable pub pid_init_separated : IncPid F → IncPid F
  unfolding unset
  pid_init_separated p = unset (literal 4 2)

  -- The new state for a speed and a step of the output.
  stepped : IncPid F → F → F → F → IncPid F
  stepped p speed e increment = record p {
    set_speed = speed;
    err = e;
    actual_speed = add p.actual_speed increment;
    err_last = p.err_next;
    err_next = e;
  }

  -- `err - 2*errNext + errLast`
  second_difference : IncPid F → F → F
  second_difference p e = add (sub e (mul (literal 2 0) p.err_next)) p.err_last

  -- `pid_realize` of pid1.c.
  unfoldable pub pid_realize : IncPid F → F → IncPid F
  unfolding stepped second_difference
  pid_realize p speed =
      let e = sub speed p.actual_speed in
      stepped p speed e
        (add (add (mul p.kp (sub e p.err_next)) (mul p.ki e)) (mul p.kd (second_difference p e)))

  -- `pid_realize` of pid2_1.c.
  unfoldable pub pid_realize_separated : IncPid F → F → IncPid F
  unfolding stepped second_difference is_large
  pid_realize_separated p speed =
      let e = sub speed p.actual_speed in
      let param = if is_large A e then literal 0 0 else literal 1 0 in
      stepped p speed e (
        add (add (mul p.kp (sub e p.err_next)) (mul (mul param p.ki) e))
          (mul p.kd (second_difference p e)))
