-- ===== src/Cardet/Passing.antt =====
-- Whole passages: five polls of the driver while a car goes through, or does not.
use linuxapp.Common.{
  ◌≡◌, refl, arith, true, false, Option, some, ◌>>=◌, List, [], ◌∷◌, if◌then◌else◌, Bool,
  Bool-cases, inl, ◌&&◌, ◌||◌, inr, All, ◌++◌,
}
use linuxapp.Common.Int.{ℤ}
use linuxapp.Common.Timeval.{Timeval, timerisset}
use linuxapp.Cardet.Gettime.{Reading, now_after, now_plus, get_timeval_ms}
use linuxapp.Cardet.Driver.{TimeSign, cardet_irq_read, cardet_irq_write}
use linuxapp.Cardet.Detec.{
  Cardet, scan, trigger, wait, passed, end, x_edge, y_edge, clear_edges, counted, fns_detec_loop,
}

-- Polls one after the other with no new interrupt between them; each system call succeeds.
unfoldable pub polls : List Reading → TimeSign → Cardet → Option (TimeSign × Cardet)
polls [] t c = some (t, c)
polls (now ∷ later) t c = fns_detec_loop true true now t c >>= λ r. polls later r.0 r.1

-- The deadline that the trigger state sets.
abbrev pub deadline : Reading → Timeval
deadline now = now_plus now (get_timeval_ms 1000)

-- A channel between two cars, with nothing to clear.
abbrev pub ready : Cardet → Cardet
ready c = record c { state = scan; tcls = 0 }

abbrev pub either : TimeSign → Bool
either t = timerisset (x_edge t) || timerisset (y_edge t)

abbrev pub both : TimeSign → Bool
both t = timerisset (x_edge t) && timerisset (y_edge t)

module _ (c : Cardet) (t : TimeSign) where
  step_scan :
      (now : Reading)
      → either t ≡ true
      → fns_detec_loop true true now t (ready c)
        ≡ some (t, record c { state = trigger; tcls = 0; tmsign = t })
  unfolding fns_detec_loop cardet_irq_read
  step_scan now hx = rw hx refl

  step_trigger :
      (now : Reading)
      → fns_detec_loop true true now t (record c { state = trigger; tcls = 0 })
        ≡ some (t, record c { state = wait; tcls = 0; tmsign = t; timeout = deadline now })
  unfolding fns_detec_loop cardet_irq_read
  step_trigger now = refl

  step_wait :
      (now : Reading) (late full : Bool)
      → now_after now c.timeout ≡ late
      → both t ≡ full
      → fns_detec_loop true true now t (record c { state = wait; tcls = 0 })
        ≡ some (
          t,
          record c {
            state = if late then end else if full then passed else wait;
            tcls = 0;
            tmsign = t;
          },
        )
  unfolding fns_detec_loop cardet_irq_read
  step_wait now true true l b = rw b (rw l refl)
  step_wait now true false l b = rw b (rw l refl)
  step_wait now false true l b = rw b (rw l refl)
  step_wait now false false l b = rw b (rw l refl)

  step_passed :
      (now : Reading)
      → fns_detec_loop true true now t (record c { state = passed; tcls = 0 })
        ≡ some (
          t,
          record c {
            state = end;
            tcls = 0;
            tmsign = t;
            flows = counted (x_edge t) (y_edge t) c.flows;
          },
        )
  unfolding fns_detec_loop cardet_irq_read
  step_passed now = refl

  step_end :
      (now : Reading)
      → fns_detec_loop true true now t (record c { state = end; tcls = 0 })
        ≡ some (clear_edges t, record c { state = scan; tcls = 0; tmsign = clear_edges t })
  unfolding fns_detec_loop cardet_irq_read cardet_irq_write
  step_end now = refl

  pub step_idle :
      (now : Reading)
      → fns_detec_loop true true now (clear_edges t) (ready c)
        ≡ some (clear_edges t, record c { state = scan; tcls = 0; tmsign = clear_edges t })
  unfolding fns_detec_loop cardet_irq_read timerisset
  step_idle now = refl

-- The channel after a passage: ready again, its stamps cleared, with the given count.
abbrev pub done : Cardet → TimeSign → Timeval → ℤ → Cardet
done c t limit flows = record c {
  state = scan;
  tcls = 0;
  timeout = limit;
  tmsign = clear_edges t;
  flows = flows;
}

both→either : (t : TimeSign) → both t ≡ true → either t ≡ true
both→either t h = ground arith

-- If both points have been stamped when a ready channel is polled, and nothing is stamped during
-- five polls, then the channel is ready again, with the stamps cleared in the program and in the
-- driver. The count has gone up by one if X was stamped before Y, down by one if Y was stamped
-- before X, and stays if the stamps are equal; but it stays too if the third poll comes after the
-- deadline that the second one set.
pub passage :
    (c : Cardet) (t : TimeSign) (n1 n2 n3 n4 n5 : Reading)
    → both t ≡ true
    → polls (n1 ∷ n2 ∷ n3 ∷ n4 ∷ n5 ∷ []) t (ready c)
      ≡ some (
        clear_edges t,
        done c t
            (deadline n2)
            (if now_after n3 (deadline n2) then c.flows else counted (x_edge t) (y_edge t) c.flows),
      )
unfolding polls
passage c t n1 n2 n3 n4 n5 h = rw (step_scan c t n1 (both→either t h)) (
    rw (step_trigger (record c { tmsign = t }) t n2)
      (elim (Bool-cases (now_after n3 (deadline n2))) [
        | inl late ↦
            rw (step_wait (record c { tmsign = t; timeout = deadline n2 }) t n3 true true late h) (
              rw (step_end (record c { tmsign = t; timeout = deadline n2 }) t n4) (
                rw (step_idle (record c { tmsign = clear_edges t; timeout = deadline n2 }) t n5)
                  (rw late refl)))
        | inr timely ↦
            rw (step_wait (record c { tmsign = t; timeout = deadline n2 }) t n3 false true timely h)
              (rw (step_passed (record c { tmsign = t; timeout = deadline n2 }) t n4) (
                rw
                  (step_end
                    (record c {
                      tmsign = t;
                      timeout = deadline n2;
                      flows = counted (x_edge t) (y_edge t) c.flows;
                    })
                    t n5)
                  (rw timely refl)))
      ]))

-- The polls that wait for the second point.
waiting :
    (ws rest : List Reading) (c : Cardet) (t : TimeSign)
    → both t ≡ false
    → All (λ w. now_after w c.timeout ≡ false) ws
    → polls (ws ++ rest) t (record c { state = wait; tcls = 0; tmsign = t })
      ≡ polls rest t (record c { state = wait; tcls = 0; tmsign = t })
unfolding polls
waiting [] rest c t h early = refl
waiting (w ∷ ws) rest c t h (e, early) =
    rw (step_wait (record c { tmsign = t }) t w false false e h) (waiting ws rest c t h early)

-- One of the two points has been stamped when a ready channel is polled, and nothing is stamped
-- during the polls: however many polls come before the deadline, the
-- first poll after it and one more leave the channel ready with its stamps cleared and the count as
-- it was.
pub dropped :
    (c : Cardet) (t : TimeSign) (n1 n2 n3 n4 : Reading) (ws : List Reading)
    → either t ≡ true
    → both t ≡ false
    → All (λ w. now_after w (deadline n2) ≡ false) ws
    → now_after n3 (deadline n2) ≡ true
    → polls (n1 ∷ n2 ∷ (ws ++ (n3 ∷ n4 ∷ []))) t (ready c)
      ≡ some (clear_edges t, done c t (deadline n2) c.flows)
unfolding polls
dropped c t n1 n2 n3 n4 ws one h early late = rw (step_scan c t n1 one) (
    rw (step_trigger (record c { tmsign = t }) t n2) (
      rw (waiting ws (n3 ∷ n4 ∷ []) (record c { timeout = deadline n2 }) t h early) (
        rw (step_wait (record c { tmsign = t; timeout = deadline n2 }) t n3 true false late h)
          (rw (step_end (record c { tmsign = t; timeout = deadline n2 }) t n4) refl))))
