-- ===== src/Cardet/System.antt =====
-- The driver and the program together: interrupts may come at any time, also between the two halves
-- of a poll, the read of the stamps and the step that may write them back.
use linuxapp.Common.{ℕ, ◌+◌, ◌*◌, ◌≤◌, ◌≡◌, refl, arith, true, false, Bool, some}
use linuxapp.Common.Int.{ℤ, pos, ◌+ℤ◌, pos_part, neg_part}
use linuxapp.Common.Timeval.{Timeval, zero_time, timerisset}
use linuxapp.Cardet.Gettime.{Reading}
use linuxapp.Cardet.Driver.{
  TimeSign, zero_sign, isr_ch0_xphandle, isr_ch0_yphandle, cardet_irq_read, cardet_irq_write,
}
use linuxapp.Cardet.Detec.{
  Cardet, CardetState, scan, trigger, wait, passed, end, x_edge, y_edge, counted, poll_read,
  poll_rest,
}
use linuxapp.Cardet.Passing.{either, both}

-- The driver's stamps, the channel, whether a poll has read and not yet stepped, and the number of
-- interrupts so far, which no code keeps.
pub record Sys : Type 0 where
  pub stamps : TimeSign
  pub app : Cardet
  pub reading : Bool
  pub isrs : ℕ

-- Both programs at their start: all is zero.
abbrev pub start : Sys
start = record {
  stamps = zero_sign;
  app = record { state = scan; flows = pos 0; tcls = 0; timeout = zero_time; tmsign = zero_sign };
  reading = false;
  isrs = 0;
}

pub data Step : Sys → Sys → Type 0 where
  fire_x :
      (s : Sys) (now : Timeval)
      → timerisset now ≡ true
      → Step s (record s { stamps = isr_ch0_xphandle now s.stamps; isrs = s.isrs + 1 })
  fire_y :
      (s : Sys) (now : Timeval)
      → timerisset now ≡ true
      → Step s (record s { stamps = isr_ch0_yphandle now s.stamps; isrs = s.isrs + 1 })
  read_half :
      (s : Sys) (c : Cardet)
      → s.reading ≡ false
      → poll_read true s.stamps s.app ≡ some c
      → Step s (record s { app = c; reading = true })
  step_half :
      (s : Sys) (now : Reading) (t : TimeSign) (c : Cardet)
      → s.reading ≡ true
      → poll_rest true now s.stamps s.app ≡ some (t, c)
      → Step s (record s { stamps = t; app = c; reading = false })

pub data Reach (s : Sys) : Sys → Type 0 where
  here : Reach s s
  next : {t u : Sys} → Reach s t → Step t u → Reach s u

abbrev one_if : Bool → ℕ
one_if true = 1
one_if false = 0

-- The points stamped in the driver and not yet counted.
abbrev uncounted : CardetState → TimeSign → ℕ
uncounted end t = 0
uncounted _ t = one_if (timerisset (x_edge t)) + one_if (timerisset (y_edge t))

abbrev pub size : ℤ → ℕ
size n = pos_part n + neg_part n

abbrev Started : CardetState → TimeSign → Type 0
Started trigger t = either t ≡ true
Started wait t = either t ≡ true
Started passed t = both t ≡ true
Started _ t = Unit

record IsSound (s : Sys) : Type 0 where
  cleared : s.app.tcls ≡ 0
  seen_x : timerisset (x_edge s.app.tmsign) ≡ true → timerisset (x_edge s.stamps) ≡ true
  seen_y : timerisset (y_edge s.app.tmsign) ≡ true → timerisset (y_edge s.stamps) ≡ true
  started : Started s.app.state s.stamps
  budget : 2 * size s.app.flows + uncounted s.app.state s.stamps ≤ s.isrs

size-counted : (x y : Timeval) (f : ℤ) → size (counted x y f) ≤ size f + 1
unfolding ◌+ℤ◌
size-counted x y f = ground arith

rest_IsSound :
    (st : CardetState) (s : Sys) (now : Reading) (t : TimeSign) (c : Cardet)
    → s.app.state ≡ st
    → IsSound s
    → poll_rest true now s.stamps s.app ≡ some (t, c)
    → IsSound (record s { stamps = t; app = c; reading = false })
unfolding poll_rest cardet_irq_write
rest_IsSound scan s now t c k v e = ground arith
rest_IsSound trigger s now t c k v e = ground arith
rest_IsSound wait s now t c k v e = ground arith
rest_IsSound passed s now t c k v e =
    ground (arith, size-counted (x_edge s.app.tmsign) (y_edge s.app.tmsign) s.app.flows)
rest_IsSound end s now t c k v e = unfold timerisset in ground arith

fire_IsSound_x :
    (st : CardetState) (s : Sys) (now : Timeval)
    → s.app.state ≡ st
    → IsSound s
    → timerisset now ≡ true
    → IsSound (record s { stamps = isr_ch0_xphandle now s.stamps; isrs = s.isrs + 1 })
unfolding isr_ch0_xphandle
fire_IsSound_x st s now k v h = ground arith

fire_IsSound_y :
    (st : CardetState) (s : Sys) (now : Timeval)
    → s.app.state ≡ st
    → IsSound s
    → timerisset now ≡ true
    → IsSound (record s { stamps = isr_ch0_yphandle now s.stamps; isrs = s.isrs + 1 })
unfolding isr_ch0_yphandle
fire_IsSound_y st s now k v h = ground arith

read_IsSound :
    (s : Sys) (c : Cardet)
    → IsSound s
    → poll_read true s.stamps s.app ≡ some c
    → IsSound (record s { app = c; reading = true })
unfolding poll_read cardet_irq_read
read_IsSound s c v e = ground arith

Step-IsSound : {s t : Sys} → Step s t → IsSound s → IsSound t
Step-IsSound (fire_x s now h) v = fire_IsSound_x s.app.state s now refl v h
Step-IsSound (fire_y s now h) v = fire_IsSound_y s.app.state s now refl v h
Step-IsSound (read_half s c ph e) v = read_IsSound s c v e
Step-IsSound (step_half s now t c ph e) v = rest_IsSound s.app.state s now t c refl v e

start-IsSound : IsSound start
unfolding timerisset
start-IsSound = ground arith

Reach-IsSound : {s t : Sys} → IsSound s → Reach s t → IsSound t
Reach-IsSound v here = v
Reach-IsSound v (next r st) = Step-IsSound st (Reach-IsSound v r)

-- However interrupts and polls interleave, a car is counted only for two interrupts of its own:
-- twice the size of the count, in or out, is at most the number of interrupts so far.
pub flows_bounded : {s : Sys} → Reach start s → 2 * size s.app.flows ≤ s.isrs
flows_bounded r = let v = Reach-IsSound start-IsSound r in omega (arith, v.budget)

-- However interrupts and polls interleave, a channel that is about to count has both of its points
-- stamped in the driver, and no stamp is left to clear.
pub passed-both :
    {s : Sys} → Reach start s → s.app.state ≡ passed → (both s.stamps ≡ true) × (s.app.tcls ≡ 0)
passed-both r e = let v = Reach-IsSound start-IsSound r in (ground (arith, v), v.cleared)
