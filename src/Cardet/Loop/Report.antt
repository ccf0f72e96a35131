-- ===== src/Cardet/Loop/Report.antt =====
-- From a passage to the text that is sent.
use linuxapp.Common.Int.{ℤ, pos, ltb_ℤ, pos_part, neg_part}
use linuxapp.Common.{
  ℕ, ◌^◌, ◌+◌, ◌<◌, true, false, if◌then◌else◌, some, List, [], ◌∷◌, ◌++◌, drop, ◌≡◌, refl, ap, ◌∙◌,
}
use linuxapp.Common.Timeval.{Timeval}
use linuxapp.Cardet.Gettime.{Reading, now_after}
use linuxapp.Cardet.Driver.{TimeSign}
use linuxapp.Cardet.Detec.{Cardet, x_edge, y_edge, counted, clear_edges}
use linuxapp.Cardet.Udp.{read_number-report, report, read_number}
use linuxapp.Cardet.Passing.{passage, ready, both, deadline, done}
use linuxapp.Cardet.Loop.{Round, Program, app_main_loop, rounds}
use linuxapp.Cardet.Loop.Rounds.{
  IsPolled, udp_tick_after, round_lem, rounds_lem, rounds-append, quiet_poll,
}

-- The count after a passage, by the polls that set the deadline and that look at it.
abbrev pub count_after : Cardet → TimeSign → Reading → Reading → ℤ
count_after c t n2 n3 =
    if now_after n3 (deadline n2) then c.flows else counted (x_edge t) (y_edge t) c.flows

-- Both points have been stamped when a ready channel is polled, nothing is stamped after that, and
-- no call fails. Five rounds that poll and a round that reports run to their end, whatever else
-- they report, and from the last text that they send a receiver reads the count with this passage
-- in it, if that has at most ten digits. The passage does not count if the third poll is late.
pub passage_reported :
    (c : Cardet) (t : TimeSign) (tick utick : Timeval) (r1 r2 r3 r4 r5 r6 : Round)
    → both t ≡ true
    → IsPolled tick (r1 ∷ r2 ∷ r3 ∷ r4 ∷ r5 ∷ [])
    → r6.read_ok ≡ true
    → r6.write_ok ≡ true
    → ltb_ℤ r6.sent (pos 1) ≡ false
    → now_after r6.udp_now (udp_tick_after utick (r1 ∷ r2 ∷ r3 ∷ r4 ∷ r5 ∷ [])) ≡ true
    → pos_part (count_after c t r2.during r3.during)
        + neg_part (count_after c t r2.during r3.during)
      < 10 ^ 10
    → (texts : List (List ℕ)) × (text : List ℕ) × (p : Program) × (rounds
          (r1 ∷ r2 ∷ r3 ∷ r4 ∷ r5 ∷ r6 ∷ [])
          (record { stamps = t; detec_tick = tick; udp_tick = utick; channel = ready c })
        ≡ some (texts ++ text ∷ [], p))
      × (read_number (drop 16 text) ≡ count_after c t r2.during r3.during)
      × (p.channel.flows ≡ count_after c t r2.during r3.during)
unfolding udp_tick_after
passage_reported c t tick utick r1 r2 r3 r4 r5 r6 h polled readable writable sent due small =
    let five = r1 ∷ r2 ∷ r3 ∷ r4 ∷ r5 ∷ [] in
    let flows = count_after c t r2.during r3.during in
    let p : Program = record {
      stamps = t;
      detec_tick = tick;
      udp_tick = utick;
      channel = ready c;
    } in
    let left = done c t (deadline r2.during) flows in
    let (texts, tick5, e) =
      rounds_lem five p (clear_edges t) left polled
        (passage c t r1.during r2.during r3.during r4.during r5.during h) in
    let q : Program = record {
      stamps = clear_edges t;
      detec_tick = tick5;
      udp_tick = udp_tick_after utick five;
      channel = left;
    } in
    let (later, quiet) = quiet_poll r6 t tick5 (deadline r2.during) c flows readable writable in
    let last = round_lem r6 q sent (clear_edges t) later left quiet in
    let sends : app_main_loop r6 q ≡ some (report (pos 0) flows ∷ [], end later) =
      last ∙ ap (λ b. some ((if b then report (pos 0) flows ∷ [] else []), end later)) due in
    (
      texts,
      report (pos 0) flows,
      end later,
      rounds-append five r6 p q (end later) texts (report (pos 0) flows ∷ []) e sends,
      read_number-report flows small,
      refl,
    )
  where
    end : Timeval → Program
    end later = record {
      stamps = clear_edges t;
      detec_tick = later;
      udp_tick = udp_tick_after utick (r1 ∷ r2 ∷ r3 ∷ r4 ∷ r5 ∷ r6 ∷ []);
      channel = done c t (deadline r2.during) (count_after c t r2.during r3.during);
    }
