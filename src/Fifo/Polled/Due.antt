-- ===== src/Fifo/Polled/Due.antt =====
-- What stands in the pipe of fifo/doc/fifoexa0 accounts for what is said and not yet shown, and
-- does so after each step.
use linuxapp.Common.{
  ℕ, suc, ◌≤◌, ◌<◌, true, some, none, Option, List, [], ◌∷◌, ◌++◌, length, drop, ◌≡◌, ◌⊎◌, refl, ap,
  ◌∙◌, sym, arith, inl, inr, All, All-append, length-drop, Bool-cases, length-append,
}
use mathlib.Core.List.{append_assoc, append-nil}
use linuxapp.Common.CString.{IsText}
use linuxapp.Fifo.Polled.Interface.{NoWait, IsNoWait}
use linuxapp.Fifo.Polled.{
  buf_size, Report, send_something, not_been_read, wrote, Sys, Step, opens, looks, sends, step,
  write_main,
}
use linuxapp.Fifo.Polled.Frames.{
  Frame, frame_bytes, frames_bytes, IsFrame, texts, nonempty, written, nonempty-append,
  written-append, frames_bytes-append, texts-append, frame_of, frame_of-IsFrame,
}
use linuxapp.Fifo.Polled.Rounds.{write_main_lem, read_empty, read_frame}

-- A writer's argument fits its array.
abbrev pub IsFit : Step → Type 0
IsFit opens = Unit
IsFit looks = Unit
IsFit (sends none w_buf) = Unit
IsFit (sends (some arg) w_buf) = IsText arg × (length arg < buf_size) × (length w_buf ≡ buf_size)

module _ (P : NoWait) where
  open P use {State, contents}

  -- The frames stand in the pipe, and are what is written and not yet shown. No frame stands there
  -- before the reader has opened the pipe.
  pub record IsDue (fs : List Frame) (z : Sys P) : Type 0 where
    pub framed : All IsFrame fs
    pub there : contents z.pipe ≡ frames_bytes fs
    pub accounted : nonempty (written z.said) ≡ nonempty z.shown ++ nonempty (texts fs)
    pub after_open : (z.reading ≡ true) ⊎ (fs ≡ [])

  said_nothing :
      (z : Sys P) (fs : List Frame) (r : Report)
      → written (r ∷ []) ≡ []
      → IsDue fs z
      → IsDue fs (record z { said = z.said ++ r ∷ [] })
  said_nothing z fs r silent due = record {
    framed = due.framed;
    there = due.there;
    accounted =
        ap nonempty (
          written-append z.said (r ∷ [])
          ∙ ap (◌++◌ (written z.said)) silent
          ∙ append-nil (written z.said))
        ∙ due.accounted;
    after_open = due.after_open;
  }

  shown_text :
      (z : Sys P) (f : Frame) (fs : List Frame) (t : State)
      → IsDue (f ∷ fs) z
      → contents t ≡ frames_bytes fs
      → IsDue fs (record z { pipe = t; shown = z.shown ++ f.text ∷ [] })
  shown_text z f fs t due left = record {
    framed = due.framed.1;
    there = left;
    accounted =
        due.accounted
        ∙ ap (◌++◌ (nonempty z.shown)) (nonempty-append (f.text ∷ []) (texts fs))
        ∙ sym (append_assoc (nonempty z.shown) (nonempty (f.text ∷ [])) (nonempty (texts fs)))
        ∙ ap (λ ts. ts ++ nonempty (texts fs)) (sym (nonempty-append z.shown (f.text ∷ [])));
    after_open = elim due.after_open [ inl reading ↦ inl reading | inr e ↦ cc ];
  }

  sent_text :
      (z : Sys P) (f : Frame) (fs : List Frame) (t : State)
      → IsFrame f
      → z.reading ≡ true
      → IsDue fs z
      → contents t ≡ contents z.pipe ++ frame_bytes f
      → IsDue (fs ++ f ∷ []) (record z { pipe = t; said = z.said ++ wrote f.text ∷ [] })
  sent_text z f fs t framed reading due added = record {
    framed = All-append IsFrame fs (f ∷ []) due.framed (framed, tt);
    there = added ∙ ap (λ b. b ++ frame_bytes f) due.there ∙ sym (frames_bytes-append fs f);
    accounted =
        ap nonempty (written-append z.said (wrote f.text ∷ []))
        ∙ nonempty-append (written z.said) (f.text ∷ [])
        ∙ ap (λ ts. ts ++ nonempty (f.text ∷ [])) due.accounted
        ∙ append_assoc (nonempty z.shown) (nonempty (texts fs)) (nonempty (f.text ∷ []))
        ∙ ap (◌++◌ (nonempty z.shown)) (
            sym (nonempty-append (texts fs) (f.text ∷ [])) ∙ ap nonempty (sym (texts-append fs f)));
    after_open = inl reading;
  }

module _ (P : NoWait) (laws : IsNoWait P) where
  open P use {State, contents}

  pub look-IsDue :
      (fs : List Frame) (z : Sys P)
      → IsDue P fs z
      → (y : Sys P) × (step P looks z ≡ some y) × IsDue P (drop 1 fs) y
  unfolding step
  look-IsDue [] z due = elim (Bool-cases z.reading) [
    | inl e ↦
        let (t, shows, still) = read_empty P laws z.pipe due.there in
        (
          record z { pipe = t; shown = z.shown ++ [] ∷ [] },
          rw e (rw shows refl),
          record {
            framed = tt;
            there = still;
            accounted =
                due.accounted
                ∙ ap (λ ts. ts ++ [])
                    (sym (nonempty-append z.shown ([] ∷ []) ∙ append-nil (nonempty z.shown)));
            after_open = inl e;
          },
        )
    | inr e ↦ (z, rw e refl, due)
  ]
  look-IsDue (f ∷ fs) z due =
      let reading : z.reading ≡ true = elim due.after_open [ inl e ↦ e | inr e ↦ cc ] in
      let (t, shows, left) = read_frame P laws f fs z.pipe due.framed.0 due.there in
      (
        record z { pipe = t; shown = z.shown ++ f.text ∷ [] },
        rw reading (rw shows refl),
        shown_text P z f fs t due left,
      )

  send-IsDue :
      (arg : Option (List ℕ)) (w_buf : List ℕ) (fs : List Frame) (z : Sys P)
      → IsFit (sends arg w_buf)
      → IsDue P fs z
      → (gs : List Frame) × (y : Sys P) × (step P (sends arg w_buf) z ≡ some y)
        × IsDue P gs y
        × (length gs ≤ suc (length fs))
  unfolding step write_main
  send-IsDue none w_buf fs z fit due =
      (fs, _, refl, said_nothing P z fs send_something refl due, omega arith)
  send-IsDue (some arg) w_buf fs z (text, short, whole) due =
      elim (write_main_lem P laws z.reading arg w_buf z.pipe text short whole) [
        | inl refused ↦
            (fs, _, rw refused refl, said_nothing P z fs not_been_read refl due, omega arith)
        | inr (t, reading, e, there) ↦
            let f = frame_of arg w_buf in
            (
              fs ++ f ∷ [],
              _,
              rw e refl,
              sent_text P z f fs t (frame_of-IsFrame arg w_buf text short whole) reading due there,
              omega (arith, length-append fs (f ∷ [])),
            )
      ]

  pub step-IsDue :
      (st : Step) (fs : List Frame) (z : Sys P)
      → IsFit st
      → IsDue P fs z
      → (gs : List Frame) × (y : Sys P) × (step P st z ≡ some y)
        × IsDue P gs y
        × (length gs ≤ suc (length fs))
  unfolding step
  step-IsDue opens fs z fit due = (
    fs,
    record z { reading = true },
    refl,
    record {
      framed = due.framed;
      there = due.there;
      accounted = due.accounted;
      after_open = inl refl;
    },
    omega arith,
  )
  step-IsDue looks fs z fit due =
      let (y, e, next) = look-IsDue fs z due in
      (drop 1 fs, y, e, next, omega (arith, length-drop 1 fs))
  step-IsDue (sends arg w_buf) fs z fit due = send-IsDue arg w_buf fs z fit due
