-- ===== src/Cardet/Loop.antt =====
-- iMX287Learn/cardet/main.c: the loop of the whole program, each round a poll of the driver and
-- then the report of the count.
pub mod Rounds
pub mod Report
mod Tests
use linuxapp.Common.Int.{is_negative, ℤ, pos, ltb_ℤ, pos_part, neg_part}
use linuxapp.Common.{
  ℕ, >>=-eq-some, ◌^◌, ◌+◌, ◌<◌, Bool, true, false, if◌then◌else◌, Option, none, some, ◌>>=◌, List,
  [], ◌∷◌, ◌++◌, map, drop, ◌≡◌, refl, sym, ap, ◌∙◌, arith, inl, inr, Bool-cases,
}
use mathlib.Core.List.{append-nil, append_assoc}
use linuxapp.Common.Timeval.{Timeval}
use linuxapp.Cardet.Gettime.{Reading, now_after, now_plus, get_timeval_ms}
use linuxapp.Cardet.Driver.{TimeSign}
use linuxapp.Cardet.Detec.{
  Cardet, app_detec_loop, fns_detec_loop, fns_cardet_getflows, x_edge, y_edge, counted, clear_edges,
  scan,
}
use linuxapp.Cardet.Udp.{
  fns_udp_init, app_udp_loop, fns_udp_loop-report, read_number-report, report, read_number,
}
use linuxapp.Cardet.Passing.{polls, passage, ready, both, deadline, done, step_idle}

-- `fns_detec_init` of detec/detec.c, by what open answers: the driver's descriptor. The script
-- that it runs before is left out. The program ends where the driver cannot be opened.
unfoldable fns_detec_init : ℤ → Option ℤ
fns_detec_init opened = if is_negative opened then none else some opened

-- `app_main_init`: the driver's descriptor and the socket.
unfoldable app_main_init : ℤ → ℤ → ℤ → ℤ → Option (ℤ × ℤ)
unfolding fns_detec_init
app_main_init opened sockfd option bound = do
  fd ← fns_detec_init opened
  sock ← fns_udp_init sockfd option bound
  some (fd, sock)

-- What the system answers in one round: the calls on the driver, the clock, and sendto.
pub record Round : Type 0 where
  pub read_ok : Bool
  pub write_ok : Bool
  pub detec_now : Reading
  pub during : Reading
  pub detec_later : Reading
  pub udp_now : Reading
  pub udp_later : Reading
  pub sent : ℤ

-- The driver's stamps, the two deadlines `_fnstick`, and the channel.
pub record Program : Type 0 where
  pub stamps : TimeSign
  pub detec_tick : Timeval
  pub udp_tick : Timeval
  pub channel : Cardet

-- `app_main_loop`: the texts that were sent, and what is left of the round.
unfoldable pub app_main_loop : Round → Program → Option (List (List ℕ) × Program)
unfolding app_detec_loop app_udp_loop
app_main_loop r p = do
  (stamps, tick, c) ←
      app_detec_loop r.read_ok r.write_ok r.detec_now r.during r.detec_later
        (p.stamps, p.detec_tick, p.channel)
  (texts, utick) ← app_udp_loop r.sent r.udp_now r.udp_later p.udp_tick c
  some (texts, record { stamps = stamps; detec_tick = tick; udp_tick = utick; channel = c })

-- Rounds of the loop in `main`, with all that they send.
unfoldable pub rounds : List Round → Program → Option (List (List ℕ) × Program)
rounds [] p = some ([], p)
rounds (r ∷ rs) p = do
  (texts, p') ← app_main_loop r p
  (more, p'') ← rounds rs p'
  some (texts ++ more, p'')
