-- ===== src/Common/Timeval.antt =====
-- `struct timeval` and the macros of <sys/time.h> that the programs use, for times past 1970.
use Prim.Native.Nat.{ℕ, ◌+◌, ◌-◌, ◌*◌, ◌<◌}
use mathlib.Core.Path.{◌≡◌}
use mathlib.Core.Logic.{◌↔◌}
use mathlib.Core.Bool.{Bool, true, not, ◌&&◌}
use native.Mathlib.Omega.{arith}
use linuxapp.Common.Tests.{ltb, leb, ◌==◌, if◌then◌else◌}

pub record Timeval : Type 0 where
  pub tv_sec : ℕ
  pub tv_usec : ℕ

abbrev pub zero_time : Timeval
zero_time = record { tv_sec = 0; tv_usec = 0 }

-- `timerisset(tvp)`; `timerclear(tvp)` stores `zero_time`.
unfoldable pub timerisset : Timeval → Bool
timerisset t = not (t.tv_sec == 0 && t.tv_usec == 0)

-- `timercmp(a, b, <)`; `timercmp(a, b, >)` is the same with the arguments exchanged.
unfoldable pub timer_lt : Timeval → Timeval → Bool
timer_lt a b = if a.tv_sec == b.tv_sec then ltb a.tv_usec b.tv_usec else ltb a.tv_sec b.tv_sec

-- `timeradd(a, b, result)`
unfoldable pub timeradd : Timeval → Timeval → Timeval
timeradd a b =
    if leb 1000000 (a.tv_usec + b.tv_usec)
    then record { tv_sec = a.tv_sec + b.tv_sec + 1; tv_usec = a.tv_usec + b.tv_usec - 1000000 }
    else record { tv_sec = a.tv_sec + b.tv_sec; tv_usec = a.tv_usec + b.tv_usec }

-- The microseconds since 1970, and the form in which the fields are read off them.
abbrev pub micros : Timeval → ℕ
micros t = t.tv_sec * 1000000 + t.tv_usec

abbrev pub IsNormal : Timeval → Type 0
IsNormal t = t.tv_usec < 1000000

pub timer_lt_iff :
    (a b : Timeval) → IsNormal a → IsNormal b → (timer_lt a b ≡ true) ↔ (micros a < micros b)
unfolding timer_lt
timer_lt_iff a b h k = ground arith

pub micros-timeradd : (a b : Timeval) → micros (timeradd a b) ≡ micros a + micros b
unfolding timeradd
micros-timeradd a b = ground arith

pub timeradd-IsNormal : (a b : Timeval) → IsNormal a → IsNormal b → IsNormal (timeradd a b)
unfolding timeradd
timeradd-IsNormal a b h k = ground arith

pub timerisset_iff : (t : Timeval) → (timerisset t ≡ true) ↔ (0 < micros t)
unfolding timerisset
timerisset_iff t = ground arith
