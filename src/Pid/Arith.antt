-- ===== src/Pid/Arith.antt =====
-- The arithmetic that the controllers compute with, and what is common to their source files.
use linuxapp.Common.{ℕ, ◌+◌, Bool, ltb}
use linuxapp.Common.Int.{ℤ, pos_part, neg_part}

-- C's float with its operations. `literal n k` is the decimal constant n / 10^k; `to_int` is the
-- conversion that a call of the integer function abs makes, and `of_int` the one back.
pub record Arith : Type 1 where
  pub F : Type 0
  pub literal : ℕ → ℕ → F
  pub add : F → F → F
  pub sub : F → F → F
  pub mul : F → F → F
  pub div : F → F → F
  pub lt : F → F → Bool
  pub to_int : F → ℤ
  pub of_int : ℤ → F

-- `abs` of <stdlib.h>.
abbrev pub abs : ℤ → ℕ
abs n = pos_part n + neg_part n

-- `abs(err) > 200`, the test of pid2_0.c and of all its successors.
unfoldable pub is_large : (A : Arith) → A.F → Bool
is_large A e = ltb 200 (abs (A.to_int e))

-- `struct __PID` of pid0.c and pid2_0.c.
pub record Pid (F : Type 0) : Type 0 where
  pub set_speed : F
  pub actual_speed : F
  pub err : F
  pub err_last : F
  pub kp : F
  pub ki : F
  pub kd : F
  pub voltage : F
  pub integral : F

-- `struct __PID` of pid1.c and pid2_1.c.
pub record IncPid (F : Type 0) : Type 0 where
  pub set_speed : F
  pub actual_speed : F
  pub err : F
  pub err_next : F
  pub err_last : F
  pub kp : F
  pub ki : F
  pub kd : F

-- `struct __PID` of pid3.c, pid4.c and pid5.c.
pub record SatPid (F : Type 0) : Type 0 where
  pub set_speed : F
  pub actual_speed : F
  pub err : F
  pub err_last : F
  pub kp : F
  pub ki : F
  pub kd : F
  pub voltage : F
  pub integral : F
  pub umax : F
  pub umin : F
