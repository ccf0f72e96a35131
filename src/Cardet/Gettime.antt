-- ===== src/Cardet/Gettime.antt =====
-- iMX287Learn/cardet/timer/gettime.c, and the macros of <sys/time.h> over it. The static results
-- `_tv0` and `_tv1` are distinct objects, read before their next write, so the functions return
-- values. The macros evaluate their argument get_timeval_now(NULL) once for each field that they
-- read, so each use of one asks for the time twice.
use linuxapp.Common.{
  ℕ, ◌+◌, ◌*◌, ◌/◌, ◌%◌, ◌<◌, ◌==◌, Bool, true, ltb, if◌then◌else◌, ◌≡◌, ◌↔◌, ◌⊎◌, arith,
}
use linuxapp.Common.Timeval.{Timeval, zero_time, micros, IsNormal, timeradd}

-- `get_timeval_ms(ms)`, for a time that is not negative.
unfoldable pub get_timeval_ms : ℕ → Timeval
get_timeval_ms ms =
    if ltb ms 1000
    then record zero_time { tv_usec = ms * 1000 }
    else record { tv_sec = ms / 1000; tv_usec = ms % 1000 * 1000 }

-- The two times that get_timeval_now(NULL) reads within one macro.
pub record Reading : Type 0 where
  pub first : Timeval
  pub second : Timeval

-- Both readings fall into the same second.
abbrev pub IsSteady : Reading → Type 0
IsSteady r = (r.first.tv_sec ≡ r.second.tv_sec) × IsNormal r.second

-- `timercmp(get_timeval_now(NULL), &t, >)`
unfoldable pub now_after : Reading → Timeval → Bool
now_after r t =
    if r.first.tv_sec == t.tv_sec
    then ltb t.tv_usec r.second.tv_usec
    else ltb t.tv_sec r.second.tv_sec

-- `timeradd(get_timeval_now(NULL), d, &result)`: the seconds of one reading, the rest of the other.
unfoldable pub now_plus : Reading → Timeval → Timeval
unfolding timeradd
now_plus r d = timeradd (record { tv_sec = r.first.tv_sec; tv_usec = r.second.tv_usec }) d

-- get_timeval_ms(ms) is `ms` milliseconds in the normal form of a timeval: fewer than a million
-- microseconds beside the seconds.
pub get_timeval_ms_lem :
    (ms : ℕ) → (micros (get_timeval_ms ms) ≡ ms * 1000) × IsNormal (get_timeval_ms ms)
unfolding get_timeval_ms
get_timeval_ms_lem ms = ground arith

pub now_after_iff :
    (r : Reading) (t : Timeval)
    → IsSteady r
    → IsNormal t
    → (now_after r t ≡ true) ↔ (micros t < micros r.second)
unfolding now_after
now_after_iff r t h k = ground arith

micros-now_plus :
    (r : Reading) (d : Timeval)
    → micros (now_plus r d) ≡ r.first.tv_sec * 1000000 + r.second.tv_usec + micros d
unfolding now_plus
micros-now_plus r d = ground arith

-- The two readings of the clock fall into one second, or into one and the next: a deadline of `ms`
-- milliseconds lies `ms` milliseconds after the second reading in the first case, and a whole
-- second less in the other.
deadline_lem :
    (r : Reading) (ms : ℕ)
    → (r.second.tv_sec ≡ r.first.tv_sec) ⊎ (r.second.tv_sec ≡ r.first.tv_sec + 1)
    → micros (now_plus r (get_timeval_ms ms))
        + (if r.first.tv_sec == r.second.tv_sec then 0 else 1000000)
      ≡ micros r.second + ms * 1000
deadline_lem r ms h = ground (arith, micros-now_plus r (get_timeval_ms ms), get_timeval_ms_lem ms)
