-- ===== src/Cardet/Loop/Rounds.antt =====
-- Rounds of the loop by their polls and their reports.
use linuxapp.Common.Int.{ℤ, pos, ltb_ℤ}
use linuxapp.Common.{
  ℕ, >>=-eq-some, true, false, if◌then◌else◌, some, List, [], ◌∷◌, ◌++◌, map, ◌≡◌, refl, sym, ap,
  inl, inr, Bool-cases,
}
use mathlib.Core.List.{append-nil, append_assoc}
use linuxapp.Common.Timeval.{Timeval}
use linuxapp.Cardet.Gettime.{Reading, now_after, now_plus, get_timeval_ms}
use linuxapp.Cardet.Driver.{TimeSign}
use linuxapp.Cardet.Detec.{Cardet, app_detec_loop, fns_detec_loop, clear_edges}
use linuxapp.Cardet.Udp.{app_udp_loop, fns_udp_loop-report, report}
use linuxapp.Cardet.Passing.{polls, done, step_idle}
use linuxapp.Cardet.Loop.{Round, Program, app_main_loop, rounds}

-- The calls succeed, and each round finds the millisecond of the poll over.
unfoldable pub IsPolled : Timeval → List Round → Type 0
IsPolled tick [] = Unit
IsPolled tick (r ∷ rs) =
    (r.read_ok ≡ true)
    × (r.write_ok ≡ true)
    × (ltb_ℤ r.sent (pos 1) ≡ false)
    × (now_after r.detec_now tick ≡ true)
    × IsPolled (now_plus r.detec_later (get_timeval_ms 1)) rs

-- The deadline of the report after some rounds.
unfoldable pub udp_tick_after : Timeval → List Round → Timeval
udp_tick_after tick [] = tick
udp_tick_after tick (r ∷ rs) =
    udp_tick_after
      (if now_after r.udp_now tick then now_plus r.udp_later (get_timeval_ms 1000) else tick) rs

-- Where sendto succeeds, the report's part of a round does not fail.
udp_part :
    (sent : ℤ) (now later : Reading) (tick : Timeval) (c : Cardet)
    → ltb_ℤ sent (pos 1) ≡ false
    → app_udp_loop sent now later tick c
      ≡ some (
        (if now_after now tick then report (pos 0) c.flows ∷ [] else []),
        (if now_after now tick then now_plus later (get_timeval_ms 1000) else tick),
      )
unfolding app_udp_loop
udp_part sent now later tick c ok = elim (Bool-cases (now_after now tick)) [
  | inl due ↦ rw due (rw (fns_udp_loop-report sent c ok) refl)
  | inr early ↦ rw early refl
]

module _ (r : Round) (p : Program) (ok : ltb_ℤ r.sent (pos 1) ≡ false) where
  -- A round by what its poll does.
  pub round_lem :
      (t : TimeSign) (tick : Timeval) (c : Cardet)
      → app_detec_loop r.read_ok r.write_ok r.detec_now r.during r.detec_later
          (p.stamps, p.detec_tick, p.channel)
        ≡ some (t, tick, c)
      → app_main_loop r p
        ≡ some (
          (if now_after r.udp_now p.udp_tick then report (pos 0) c.flows ∷ [] else []),
          record {
            stamps = t;
            detec_tick = tick;
            udp_tick = udp_tick_after p.udp_tick (r ∷ []);
            channel = c;
          },
        )
  unfolding app_main_loop udp_tick_after
  round_lem t tick c e = rw e (rw (udp_part r.sent r.udp_now r.udp_later p.udp_tick c ok) refl)

  -- The poll of a round that finds its millisecond over.
  pub poll_due :
      (t : TimeSign) (c : Cardet)
      → r.read_ok ≡ true
      → r.write_ok ≡ true
      → now_after r.detec_now p.detec_tick ≡ true
      → fns_detec_loop true true r.during p.stamps p.channel ≡ some (t, c)
      → app_detec_loop r.read_ok r.write_ok r.detec_now r.during r.detec_later
          (p.stamps, p.detec_tick, p.channel)
        ≡ some (t, now_plus r.detec_later (get_timeval_ms 1), c)
  unfolding app_detec_loop
  poll_due t c readable writable due e = rw (readable, writable, due) (rw e refl)

-- Rounds that all poll are the polls, with the reports between them.
pub rounds_lem :
    (rs : List Round) (p : Program) (t : TimeSign) (c : Cardet)
    → IsPolled p.detec_tick rs
    → polls (map (λ r. r.during) rs) p.stamps p.channel ≡ some (t, c)
    → (texts : List (List ℕ)) × (tick : Timeval) × (rounds rs p
        ≡ some (
          texts,
          record {
            stamps = t;
            detec_tick = tick;
            udp_tick = udp_tick_after p.udp_tick rs;
            channel = c;
          },
        ))
unfolding rounds polls IsPolled udp_tick_after
rounds_lem [] p t c ok e = ([], p.detec_tick, cc)
rounds_lem (r ∷ rs) p t c (readable, writable, sent, due, ok) e =
    let ((t1, c1), first, others) =
      >>=-eq-some (fns_detec_loop true true r.during p.stamps p.channel) _ e in
    let one =
      round_lem r p sent t1 (now_plus r.detec_later (get_timeval_ms 1)) c1
        (poll_due r p sent t1 c1 readable writable due first) in
    let p1 : Program = record {
      stamps = t1;
      detec_tick = now_plus r.detec_later (get_timeval_ms 1);
      udp_tick = udp_tick_after p.udp_tick (r ∷ []);
      channel = c1;
    } in
    let (more, tick, rest) = rounds_lem rs p1 t c ok others in
    (
      (if now_after r.udp_now p.udp_tick then report (pos 0) c1.flows ∷ [] else []) ++ more,
      tick,
      rw one (rw rest refl),
    )

-- One round more.
pub rounds-append :
    (rs : List Round) (r : Round) (p q u : Program) (texts last : List (List ℕ))
    → rounds rs p ≡ some (texts, q)
    → app_main_loop r q ≡ some (last, u)
    → rounds (rs ++ r ∷ []) p ≡ some (texts ++ last, u)
unfolding rounds
rounds-append [] r p q u texts last e one =
    let same : p ≡ q = cc in
    let nothing : texts ≡ [] = cc in
    rw same (rw one (rw nothing (ap (λ bs. some (bs, u)) (append-nil last))))
rounds-append (r1 ∷ rs) r p q u texts last e one =
    let ((t1, p1), first, others) = >>=-eq-some (app_main_loop r1 p) _ e in
    let ((t2, p2), rest, same) = >>=-eq-some (rounds rs p1) _ others in
    let joined : texts ≡ t1 ++ t2 = cc in
    let state : p2 ≡ q = cc in
    let more = rounds-append rs r p1 p2 u t2 last rest (rw state one) in
    rw first (rw more (rw joined (ap (λ bs. some (bs, u)) (sym (append_assoc t1 t2 last)))))

-- A poll of a ready channel with nothing stamped changes neither, whether or not it is due.
pub quiet_poll :
    (r : Round) (t : TimeSign) (tick limit : Timeval) (c : Cardet) (flows : ℤ)
    → r.read_ok ≡ true
    → r.write_ok ≡ true
    → (later : Timeval) × (app_detec_loop r.read_ok r.write_ok r.detec_now r.during r.detec_later
          (clear_edges t, tick, done c t limit flows)
        ≡ some (clear_edges t, later, done c t limit flows))
unfolding app_detec_loop
quiet_poll r t tick limit c flows readable writable =
    elim (Bool-cases (now_after r.detec_now tick)) [
      | inl due ↦ (
        now_plus r.detec_later (get_timeval_ms 1),
        rw (readable, writable, due) (rw (step_idle (done c t limit flows) t r.during) refl),
      )
      | inr early ↦ (tick, rw early refl)
    ]
