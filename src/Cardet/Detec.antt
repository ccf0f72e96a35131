-- ===== src/Cardet/Detec.antt =====
-- iMX287Learn/cardet/detec/detec.c: the counting state machine of a channel, and the poll of the
-- driver. `now` is what the clock reads in the one macro of a poll that asks for it.
use linuxapp.Common.Int.{is_negative, ℤ, pos, negsuc, ◌+ℤ◌, ltb_ℤ}
use linuxapp.Common.{
  ℕ, ◌==◌, Bool, ◌&&◌, ◌||◌, if◌then◌else◌, Option, some, none, ◌>>=◌, List, [], ◌∷◌,
}
use linuxapp.Common.Timeval.{Timeval, zero_time, timerisset, timer_lt}
use linuxapp.Cardet.Gettime.{Reading, get_timeval_ms, now_after, now_plus}
use linuxapp.Cardet.Driver.{TimeSign, channel_max, cardet_irq_read, cardet_irq_write}

-- CARDET_STATE_SCAN to CARDET_STATE_END; the static record starts at 0, which is SCAN, and no other
-- value is ever stored.
pub data CardetState : Type 0 where
  scan trigger wait passed end : CardetState

-- `struct _CARDET`
pub record Cardet : Type 0 where
  pub state : CardetState
  pub flows : ℤ
  pub tcls : ℕ
  pub timeout : Timeval
  pub tmsign : TimeSign

abbrev pub x_edge : TimeSign → Timeval
x_edge t = t.xp.fallingedge

abbrev pub y_edge : TimeSign → Timeval
y_edge t = t.yp.fallingedge

-- `timerclear` on both falling edges.
abbrev pub clear_edges : TimeSign → TimeSign
clear_edges t = record {
  xp = record { risingedge = t.xp.risingedge; fallingedge = zero_time };
  yp = record { risingedge = t.yp.risingedge; fallingedge = zero_time };
}

-- What the passing of both points adds to the count.
abbrev pub counted : Timeval → Timeval → ℤ → ℤ
counted x y flows =
    if timer_lt y x then flows +ℤ negsuc 0 else if timer_lt x y then flows +ℤ pos 1 else flows

-- The branches of fns_cardet_doflows, by the state.
doflows_in : CardetState → Reading → Cardet → Cardet
doflows_in scan now c =
    if timerisset (x_edge c.tmsign) || timerisset (y_edge c.tmsign)
    then record c { state = trigger }
    else c
doflows_in trigger now c = record c { state = wait; timeout = now_plus now (get_timeval_ms 1000) }
doflows_in wait now c =
    let c' =
      if timerisset (x_edge c.tmsign) && timerisset (y_edge c.tmsign)
      then record c { state = passed }
      else c in
    if now_after now c.timeout then record c' { state = end } else c'
doflows_in passed now c = record c {
  flows = counted (x_edge c.tmsign) (y_edge c.tmsign) c.flows;
  state = end;
}
doflows_in end now c = record c { tmsign = clear_edges c.tmsign; tcls = 1; state = scan }

unfoldable pub fns_cardet_doflows : Reading → Cardet → Cardet
unfolding doflows_in
fns_cardet_doflows now c = doflows_in c.state now c

-- `fns_cardet_getflows(ch)`: the test lets `ch = CHANNEL_MAX` and negative numbers through to the
-- array (`none` there).
unfoldable pub fns_cardet_getflows : ℤ → Cardet → Option ℤ
fns_cardet_getflows ch c =
    if ltb_ℤ (pos channel_max) ch
    then some (negsuc 0)
    else elim ch [ pos n ↦ (if n == 0 then some c.flows else none) | negsuc n ↦ none ]

-- `read(_fd, &_cardet[0].tmsign, CHANNEL_MAX*sizeof(struct _TIMESIGN))`. The program ends (`none`)
-- where the driver reports an error.
read_stamps : ℤ × List TimeSign → Cardet → Option Cardet
read_stamps (r, []) c = none
read_stamps (r, t ∷ ts) c = if is_negative r then none else some (record c { tmsign = t })

unfoldable pub poll_read : Bool → TimeSign → Cardet → Option Cardet
unfolding read_stamps
poll_read copied t c = cardet_irq_read copied channel_max (t ∷ []) >>= λ r. read_stamps r c

-- The driver's only entry after `write(...)`, and the end of the program where it fails.
written : ℤ × List TimeSign → Option TimeSign
written (r, []) = none
written (r, t ∷ ts) = if is_negative r then none else some t

-- The rest of fns_detec_loop: one step of the machine, and the cleared stamps written back.
unfoldable pub poll_rest : Bool → Reading → TimeSign → Cardet → Option (TimeSign × Cardet)
unfolding fns_cardet_doflows written
poll_rest copied now t c =
    let c' = fns_cardet_doflows now c in
    if c'.tcls == 1
    then (do
      r ← cardet_irq_write copied channel_max (c'.tmsign ∷ []) (t ∷ [])
      t' ← written r
      some (t', record c' { tcls = 0 }))
    else some (t, c')

-- `fns_detec_loop`, on the driver's stamps and the channel.
unfoldable pub fns_detec_loop :
    Bool → Bool → Reading → TimeSign → Cardet → Option (TimeSign × Cardet)
unfolding poll_read poll_rest
fns_detec_loop read_ok write_ok now t c = poll_read read_ok t c >>= poll_rest write_ok now t

-- `app_detec_loop`: a poll if its millisecond is over. `_fnstick` is the first state; `now`,
-- `during` and `later` are the readings of the test, of the poll and of the next deadline.
unfoldable pub app_detec_loop :
    Bool
    → Bool
    → Reading
    → Reading
    → Reading
    → TimeSign × Timeval × Cardet
    → Option (TimeSign × Timeval × Cardet)
unfolding fns_detec_loop
app_detec_loop read_ok write_ok now during later (t, fnstick, c) =
    if now_after now fnstick
    then (do
      (t', c') ← fns_detec_loop read_ok write_ok during t c
      some (t', now_plus later (get_timeval_ms 1), c'))
    else some (t, fnstick, c)
