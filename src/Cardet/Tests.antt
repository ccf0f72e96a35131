-- ===== src/Cardet/Tests.antt =====
-- Runs of the car detector, and its theorems at concrete passages.
use linuxapp.Common.{ℕ, ◌≡◌, ◌≤◌, ◌*◌, refl, some, [], ◌∷◌, true, ◌++◌}
use linuxapp.Common.Int.{pos, ◌+ℤ◌, negsuc}
use linuxapp.Common.Timeval.{Timeval, timer_lt, timerisset, zero_time}
use linuxapp.Cardet.Udp.{fns_udp_loop, channel_label, flows_label}
use linuxapp.Cardet.Gettime.{Reading, get_timeval_ms, now_plus, now_after}
use linuxapp.Cardet.Driver.{
  TimeSign, zero_point, zero_sign, isr_ch0_xphandle, isr_ch0_yphandle, cardet_irq_read,
}
use linuxapp.Cardet.Detec.{
  Cardet, poll_rest, fns_cardet_getflows, CardetState, passed, poll_read, trigger, wait,
}
use linuxapp.Cardet.Passing.{polls, passage, dropped, done, ready, both}
use linuxapp.Cardet.System.{
  start, Sys, Reach, here, next, fire_x, fire_y, size, flows_bounded, passed-both, Step, read_half,
  step_half,
}

abbrev at : ℕ → ℕ → Timeval
at s u = record { tv_sec = s; tv_usec = u }

abbrev read_at : ℕ → ℕ → Reading
read_at s u = record { first = at s u; second = at s u }

-- X at 10 s, Y 300 ms later.
abbrev inward : TimeSign
inward = record {
  xp = record zero_point { fallingedge = at 10 0 };
  yp = record zero_point { fallingedge = at 10 300000 };
}

passage_example :
    polls
      (read_at 10 301000
        ∷ read_at 10 302000
        ∷ read_at 10 303000
        ∷ read_at 10 304000
        ∷ read_at 10 305000
        ∷ [])
      inward
      (ready start.app)
    ≡ some (zero_sign, done start.app inward (at 11 302000) (pos 1))
unfolding now_after now_plus get_timeval_ms timer_lt ◌+ℤ◌
passage_example =
    passage start.app inward (read_at 10 301000) (read_at 10 302000) (read_at 10 303000)
      (read_at 10 304000) (read_at 10 305000) (unfold timerisset in refl)

abbrev only_x : TimeSign
only_x = record inward { yp = zero_point }

dropped_example :
    polls
      (read_at 10 1000
        ∷ read_at 10 2000
        ∷ read_at 10 900000
        ∷ read_at 11 2001
        ∷ read_at 11 3000
        ∷ [])
      only_x
      (ready start.app)
    ≡ some (zero_sign, done start.app only_x (at 11 2000) (pos 0))
unfolding now_after now_plus get_timeval_ms
dropped_example =
    dropped start.app only_x (read_at 10 1000) (read_at 10 2000) (read_at 11 2001) (read_at 11 3000)
      (read_at 10 900000 ∷ []) (unfold timerisset in refl) (unfold timerisset in refl) (refl, tt)
      refl

-- The second ends between the two readings: the deadline is over at once.
deadline_cut :
    now_plus (record { first = at 5 999999; second = at 6 0 }) (get_timeval_ms 1000) ≡ at 6 0
unfolding now_plus get_timeval_ms
deadline_cut = refl

-- X fires, then Y, and nothing is polled yet.
abbrev fired : Sys
fired = record start {
  stamps = isr_ch0_yphandle (at 10 300000) (isr_ch0_xphandle (at 10 0) zero_sign);
  isrs = 2;
}

Reach-fired : Reach start fired
Reach-fired =
    next (next here (fire_x start (at 10 0) (unfold timerisset in refl)))
      (fire_y _ (at 10 300000) (unfold timerisset in refl))

flows_bounded_example : 2 * size (pos 0) ≤ 2
flows_bounded_example = flows_bounded Reach-fired

-- The program has read the stamps, and the poll then leaves a state and a deadline.
abbrev read_of : Sys → Sys
read_of s = record s { app = record s.app { tmsign = s.stamps }; reading = true }

abbrev polled : CardetState → Timeval → Sys
polled state limit = record fired {
  app = record start.app { state = state; timeout = limit; tmsign = fired.stamps };
}

Reach-passed : Reach start (polled passed (at 11 302000))
unfolding poll_read poll_rest cardet_irq_read timerisset now_plus get_timeval_ms now_after
    isr_ch0_yphandle isr_ch0_xphandle
Reach-passed =
    Reach-poll
      (Reach-poll
        (Reach-poll Reach-fired (read_half fired _ refl refl)
          (step_half (read_of fired) (read_at 10 301000) _ _ refl refl))
        (read_half (polled trigger zero_time) _ refl refl)
        (step_half (read_of (polled trigger zero_time)) (read_at 10 302000) _ _ refl refl))
      (read_half (polled wait (at 11 302000)) _ refl refl)
      (step_half (read_of (polled wait (at 11 302000))) (read_at 10 303000) _ _ refl refl)
  where
    Reach-poll : {s t u : Sys} → Reach start s → Step s t → Step t u → Reach start u
    Reach-poll r a b = next (next r a) b

passed-both_example :
    (both (polled passed (at 11 302000)).stamps ≡ true)
    × ((polled passed (at 11 302000)).app.tcls ≡ 0)
passed-both_example = passed-both Reach-passed refl

-- Five cars have left more than have come.
abbrev emptied : Cardet
emptied = record start.app { flows = negsuc 4 }

emptied_text :
    fns_udp_loop (pos 20) emptied
    ≡ some
        (channel_label ++ b'0' ∷ b'0' ∷ b'0' ∷ b'0' ∷ flows_label ++ b'-' ∷ b'0' ∷ b'0' ∷ b'5' ∷ [])
unfolding fns_udp_loop fns_cardet_getflows
emptied_text = refl
