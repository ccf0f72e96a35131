-- ===== src/Fifo/Polled/Delivery.antt =====
-- What the reader of fifo/doc/fifoexa0 prints of what the writers send, in any order of their runs.
use linuxapp.Common.{
  ℕ, zero, suc, ◌+◌, ◌≤◌, true, false, some, List, [], ◌∷◌, ◌++◌, length, drop, replicate, ◌≡◌,
  refl, ap, ◌∙◌, arith, inr, All, length-drop, >>=-eq-some,
}
use mathlib.Core.List.{append-nil}
use linuxapp.Fifo.Polled.Interface.{NoWait, IsNoWait}
use linuxapp.Fifo.Polled.{wrote, Sys, Step, looks, sends, step, run, write_main, read_round}
use linuxapp.Fifo.Polled.Frames.{Frame, nonempty, written}
use linuxapp.Fifo.Polled.Rounds.{heard_lem}
use linuxapp.Fifo.Polled.Due.{IsFit, IsDue, look-IsDue, step-IsDue}

module _ (P : NoWait) (laws : IsNoWait P) where
  open P use {State, contents}

  run-IsDue :
      (steps : List Step) (fs : List Frame) (z : Sys P)
      → All IsFit steps
      → IsDue P fs z
      → (gs : List Frame) × (y : Sys P) × (run P steps z ≡ some y)
        × IsDue P gs y
        × (length gs ≤ length steps + length fs)
  unfolding run
  run-IsDue [] fs z fit due = (fs, z, refl, due, omega arith)
  run-IsDue (st ∷ steps) fs z (fit, fits) due =
      let (gs, y, e, next, few) = step-IsDue P laws st fs z fit due in
      let (hs, x, e2, last, few2) = run-IsDue steps gs y fits next in
      (hs, x, rw e e2, last, omega (arith, few, few2))

  -- Enough rounds of the reader leave nothing.
  looks-IsDue :
      (k : ℕ) (fs : List Frame) (z : Sys P)
      → length fs ≤ k
      → IsDue P fs z
      → (y : Sys P) × (run P (replicate k looks) z ≡ some y) × IsDue P [] y
  unfolding run
  looks-IsDue zero [] z few due = (z, refl, due)
  looks-IsDue zero (f ∷ fs) z few due = absurd (omega (arith, few))
  looks-IsDue (suc k) fs z few due =
      let (y, e, next) = look-IsDue P laws fs z due in
      let (x, e2, last) = looks-IsDue k (drop 1 fs) y (omega (arith, few, length-drop 1 fs)) next in
      (x, rw e e2, last)

  run-append :
      (front back : List Step) (z y : Sys P)
      → run P front z ≡ some y
      → run P (front ++ back) z ≡ run P back y
  unfolding run
  run-append [] back z y e = let same : z ≡ y = cc in ap (run P back) same
  run-append (st ∷ front) back z y e =
      let (x, first, rest) = >>=-eq-some (step P st z) (run P front) e in
      rw first (run-append front back x y rest)

  -- Over an empty pipe that meets its laws, whatever the order in which the reader opens it,
  -- writers run with arguments that fit their array, if they have one, and the reader makes rounds:
  -- nothing faults, and after as many more rounds as there were steps the pipe is empty and the
  -- reader has shown, in order, just the texts that writers reported as written, those without a
  -- character left out. A writer that then runs while the reader has the pipe open is not refused,
  -- and the next round shows its text.
  pub delivery_lem :
      (steps : List Step) (arg w_buf : List ℕ) (s : State)
      → All IsFit (sends (some arg) w_buf ∷ steps)
      → contents s ≡ []
      → (y : Sys P) × (t : State) × (u : State) × (run P
            (steps ++ replicate (length steps) looks)
            (record { reading = false; pipe = s; said = []; shown = [] })
          ≡ some y)
        × (contents y.pipe ≡ [])
        × (nonempty (written y.said) ≡ nonempty y.shown)
        × (write_main P true (some arg) w_buf y.pipe ≡ some (wrote arg, t))
        × (read_round P t ≡ some (arg, u))
  delivery_lem steps arg w_buf s ((text, short, whole), fits) empty =
      let z : Sys P = record { reading = false; pipe = s; said = []; shown = [] } in
      let start : IsDue P [] z = record {
        framed = tt;
        there = empty;
        accounted = refl;
        after_open = inr refl;
      } in
      let (gs, y, e, next, few) = run-IsDue steps [] z fits start in
      let (x, e2, last) = looks-IsDue (length steps) gs y (omega (arith, few)) next in
      let (t, u, sent, shows) = heard_lem P laws arg w_buf x.pipe text short whole last.there in
      (
        x,
        t,
        u,
        run-append steps (replicate (length steps) looks) z y e ∙ e2,
        last.there,
        last.accounted ∙ append-nil (nonempty x.shown),
        sent,
        shows,
      )
