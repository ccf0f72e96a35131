-- ===== src/Cardet/Loop/Tests.antt =====
-- Six rounds after a car went in: the first of them reports too.
use linuxapp.Common.{ℕ, ◌≡◌, refl, some, List, [], ◌∷◌, ◌++◌, drop, true, arith}
use linuxapp.Common.Int.{pos, ◌+ℤ◌}
use linuxapp.Common.Timeval.{Timeval, zero_time, timerisset, timer_lt}
use linuxapp.Cardet.Gettime.{Reading, now_after, now_plus, get_timeval_ms}
use linuxapp.Cardet.Driver.{TimeSign, zero_point, zero_sign}
use linuxapp.Cardet.Detec.{Cardet, scan}
use linuxapp.Cardet.Loop.{Round, Program, rounds}
use linuxapp.Cardet.Loop.Rounds.{IsPolled, udp_tick_after}
use linuxapp.Cardet.Loop.Report.{passage_reported, count_after}
use linuxapp.Cardet.Passing.{ready}
use linuxapp.Cardet.Udp.{read_number}

abbrev at : ℕ → ℕ → Timeval
at s u = record { tv_sec = s; tv_usec = u }

abbrev round_at : ℕ → ℕ → Round
round_at s u =
    let now : Reading = record { first = at s u; second = at s u } in
    record {
      read_ok = true;
      write_ok = true;
      detec_now = now;
      during = now;
      detec_later = now;
      udp_now = now;
      udp_later = now;
      sent = pos 100;
    }

abbrev inward : TimeSign
inward = record {
  xp = record zero_point { fallingedge = at 10 0 };
  yp = record zero_point { fallingedge = at 10 300000 };
}

abbrev channel : Cardet
channel = record { state = scan; flows = pos 41; tcls = 0; timeout = zero_time; tmsign = zero_sign }

passage_reported_example :
    (texts : List (List ℕ)) × (text : List ℕ) × (p : Program) × (rounds
        (round_at 10 301000
          ∷ round_at 10 303000
          ∷ round_at 10 305000
          ∷ round_at 10 307000
          ∷ round_at 10 309000
          ∷ round_at 11 400000
          ∷ [])
        (record {
          stamps = inward;
          detec_tick = zero_time;
          udp_tick = zero_time;
          channel = ready channel;
        })
      ≡ some (texts ++ text ∷ [], p))
    × (read_number (drop 16 text)
        ≡ count_after channel inward (round_at 10 303000).during (round_at 10 305000).during)
    × (p.channel.flows
        ≡ count_after channel inward (round_at 10 303000).during (round_at 10 305000).during)
unfolding now_after now_plus get_timeval_ms timer_lt ◌+ℤ◌ IsPolled udp_tick_after timerisset
passage_reported_example =
    passage_reported channel inward zero_time zero_time (round_at 10 301000) (round_at 10 303000)
      (round_at 10 305000) (round_at 10 307000) (round_at 10 309000) (round_at 11 400000) refl
      (
        refl,
        refl,
        refl,
        refl,
        (
          refl,
          refl,
          refl,
          refl,
          (refl, refl, refl, refl, (refl, refl, refl, refl, (refl, refl, refl, refl, tt))),
        ),
      )
      refl refl refl refl (omega arith)
