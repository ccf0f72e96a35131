-- ===== src/Fifo/Polled/Rounds.antt =====
-- One run of the writer and one round of the reader over frames.
use linuxapp.Common.{
  ℕ, ◌-◌, ◌<◌, Bool, true, false, some, List, [], ◌++◌, length, take, drop, ◌≡◌, ◌⊎◌, refl, ap, ◌∙◌,
  sym, arith, inl, inr, length-append,
}
use mathlib.Core.List.{append-nil}
use linuxapp.Common.CString.{c_string, c_string_lem, IsText, zeros}
use linuxapp.Fifo.Polled.Interface.{NoWait, IsNoWait}
use linuxapp.Fifo.Polled.{buf_size, not_been_read, wrote, write_main, read_round, write_buf}
use linuxapp.Fifo.Polled.Frames.{
  Frame, frame_bytes, frames_bytes, IsFrame, frame_of, frame_of-IsFrame, strcpy_lem, take_first,
  drop_first,
}

empty_shown : c_string (zeros buf_size) ≡ some []
unfolding c_string IsText
empty_shown = c_string_lem [] (zeros 99) tt

module _ (P : NoWait) (laws : IsNoWait P) where
  open P use {State, contents}

  write_buf_lem :
      (f : Frame) (s : State)
      → IsFrame f
      → (write_buf P true (frame_bytes f) s ≡ some (not_been_read, s))
        ⊎ ((t : State) × (write_buf P true (frame_bytes f) s ≡ some (wrote f.text, t))
            × (contents t ≡ contents s ++ frame_bytes f))
  unfolding write_buf
  write_buf_lem f s (text, size) = elim (laws.sent s (frame_bytes f) (omega (arith, size))) [
    | inl refused ↦ inl (rw (refused, write_buf) refl)
    | inr (t, e, there) ↦
        inr (t, rw (e, write_buf) (rw (c_string_lem f.text f.rest text) refl), there)
  ]

  -- A writer's text stands in the pipe whole, or the writer says that it does not.
  pub write_main_lem :
      (reading : Bool) (arg w_buf : List ℕ) (s : State)
      → IsText arg
      → length arg < buf_size
      → length w_buf ≡ buf_size
      → (write_main P reading (some arg) w_buf s ≡ some (not_been_read, s))
        ⊎ ((t : State) × (reading ≡ true)
            × (write_main P reading (some arg) w_buf s ≡ some (wrote arg, t))
            × (contents t ≡ contents s ++ frame_bytes (frame_of arg w_buf)))
  unfolding write_main write_buf
  write_main_lem false arg w_buf s text short whole =
      inl (rw (strcpy_lem arg w_buf short whole) refl)
  write_main_lem true arg w_buf s text short whole =
      elim (write_buf_lem (frame_of arg w_buf) s (frame_of-IsFrame arg w_buf text short whole)) [
        | inl e ↦ inl (rw (strcpy_lem arg w_buf short whole) e)
        | inr (t, e, there) ↦ inr (t, refl, rw (strcpy_lem arg w_buf short whole) e, there)
      ]

  pub read_empty :
      (s : State)
      → contents s ≡ []
      → (t : State) × (read_round P s ≡ some ([], t)) × (contents t ≡ [])
  unfolding read_round
  read_empty s empty = elim (laws.nothing s buf_size empty) [
    | inl e ↦ (s, rw (e, read_round) (rw empty_shown refl), empty)
    | inr (t, e, still) ↦ (t, rw (e, read_round) (rw empty_shown refl), still)
  ]

  pub read_frame :
      (f : Frame) (fs : List Frame) (s : State)
      → IsFrame f
      → contents s ≡ frame_bytes f ++ frames_bytes fs
      → (t : State) × (read_round P s ≡ some (f.text, t)) × (contents t ≡ frames_bytes fs)
  unfolding read_round
  read_frame f fs s (text, whole) there =
      let long = length-append (frame_bytes f) (frames_bytes fs) in
      let (t, e, rest) = laws.taken s buf_size (rw there (omega (arith, long, whole))) in
      let got : take buf_size (contents s) ≡ frame_bytes f =
        ap (take buf_size) there ∙ take_first f (frames_bytes fs) (text, whole) in
      let left : contents t ≡ frames_bytes fs =
        rest ∙ ap (drop buf_size) there ∙ drop_first f (frames_bytes fs) (text, whole) in
      let shown : c_string (frame_bytes f ++ zeros (buf_size - length (frame_bytes f)))
          ≡ some f.text =
        rw whole (ap c_string (append-nil (frame_bytes f)) ∙ c_string_lem f.text f.rest text) in
      (t, rw (e, read_round) (rw got (rw shown refl)), left)

  -- On an empty pipe a writer is not refused, and the next round shows its text.
  pub heard_lem :
      (arg w_buf : List ℕ) (s : State)
      → IsText arg
      → length arg < buf_size
      → length w_buf ≡ buf_size
      → contents s ≡ []
      → (t : State) × (u : State) × (write_main P true (some arg) w_buf s ≡ some (wrote arg, t))
        × (read_round P t ≡ some (arg, u))
  unfolding write_main write_buf
  heard_lem arg w_buf s text short whole empty =
      let f = frame_of arg w_buf in
      let framed = frame_of-IsFrame arg w_buf text short whole in
      let (t, e, there) = laws.sent_first s (frame_bytes f) (omega (arith, framed.1)) empty in
      let (u, shows, _) = read_frame f [] t framed (there ∙ sym (append-nil (frame_bytes f))) in
      (
        t,
        u,
        rw (strcpy_lem arg w_buf short whole)
            (rw (e, write_buf) (rw (c_string_lem arg f.rest text) refl)),
        shows,
      )
