-- ===== src/Fifo/Polled/Frames.antt =====
-- What stands in the pipe of fifo/doc/fifoexa0: frames of a hundred bytes, each a text with its end
-- and what the writer's array held behind it.
use linuxapp.Common.{
  ℕ, suc, ◌<◌, some, List, [], ◌∷◌, ◌++◌, length, take, drop, ◌≡◌, refl, ap, ◌∙◌, arith, lt→ltb,
  take-append, drop-append, length-append, length-drop, map, sym,
}
use linuxapp.Common.CString.{IsText}
use linuxapp.Fifo.Polled.{buf_size, strcpy, Report, send_something, not_been_read, wrote}
use mathlib.Core.List.{append_assoc, append-nil}

pub record Frame : Type 0 where
  pub text : List ℕ
  pub rest : List ℕ

abbrev pub frame_bytes : Frame → List ℕ
frame_bytes f = f.text ++ 0 ∷ f.rest

abbrev pub frames_bytes : List Frame → List ℕ
frames_bytes [] = []
frames_bytes (f ∷ fs) = frame_bytes f ++ frames_bytes fs

abbrev pub IsFrame : Frame → Type 0
IsFrame f = IsText f.text × (length (frame_bytes f) ≡ buf_size)

abbrev pub texts : List Frame → List (List ℕ)
texts fs = map (λ f. f.text) fs

-- The texts that have a character.
abbrev pub nonempty : List (List ℕ) → List (List ℕ)
nonempty [] = []
nonempty ([] ∷ ts) = nonempty ts
nonempty ((c ∷ cs) ∷ ts) = (c ∷ cs) ∷ nonempty ts

-- The texts that the writers report as written.
abbrev pub written : List Report → List (List ℕ)
written [] = []
written (send_something ∷ rs) = written rs
written (not_been_read ∷ rs) = written rs
written (wrote text ∷ rs) = text ∷ written rs

pub nonempty-append : (ts us : List (List ℕ)) → nonempty (ts ++ us) ≡ nonempty ts ++ nonempty us
nonempty-append [] us = refl
nonempty-append ([] ∷ ts) us = nonempty-append ts us
nonempty-append ((c ∷ cs) ∷ ts) us = ap (◌∷◌ (c ∷ cs)) (nonempty-append ts us)

pub written-append : (rs qs : List Report) → written (rs ++ qs) ≡ written rs ++ written qs
written-append [] qs = refl
written-append (send_something ∷ rs) qs = written-append rs qs
written-append (not_been_read ∷ rs) qs = written-append rs qs
written-append (wrote text ∷ rs) qs = ap (◌∷◌ text) (written-append rs qs)

pub frames_bytes-append :
    (fs : List Frame) (f : Frame) → frames_bytes (fs ++ f ∷ []) ≡ frames_bytes fs ++ frame_bytes f
frames_bytes-append [] f = append-nil (frame_bytes f)
frames_bytes-append (g ∷ fs) f =
    ap (◌++◌ (frame_bytes g)) (frames_bytes-append fs f)
    ∙ sym (append_assoc (frame_bytes g) (frames_bytes fs) (frame_bytes f))

pub texts-append : (fs : List Frame) (f : Frame) → texts (fs ++ f ∷ []) ≡ texts fs ++ f.text ∷ []
texts-append [] f = refl
texts-append (g ∷ fs) f = ap (◌∷◌ g.text) (texts-append fs f)

pub take_first :
    (f : Frame) (bytes : List ℕ)
    → IsFrame f
    → take buf_size (frame_bytes f ++ bytes) ≡ frame_bytes f
take_first f bytes (t, whole) = rw (← whole) (take-append (frame_bytes f) bytes)

pub drop_first :
    (f : Frame) (bytes : List ℕ) → IsFrame f → drop buf_size (frame_bytes f ++ bytes) ≡ bytes
drop_first f bytes (t, whole) = rw (← whole) (drop-append (frame_bytes f) bytes)

-- What a writer sends.
abbrev pub frame_of : List ℕ → List ℕ → Frame
frame_of arg w_buf = record { text = arg; rest = drop (suc (length arg)) w_buf }

pub strcpy_lem :
    (arg w_buf : List ℕ)
    → length arg < buf_size
    → length w_buf ≡ buf_size
    → strcpy w_buf arg ≡ some (frame_bytes (frame_of arg w_buf))
unfolding strcpy
strcpy_lem arg w_buf short whole = rw whole (rw (lt→ltb (length arg) buf_size short) refl)

pub frame_of-IsFrame :
    (arg w_buf : List ℕ)
    → IsText arg
    → length arg < buf_size
    → length w_buf ≡ buf_size
    → IsFrame (frame_of arg w_buf)
frame_of-IsFrame arg w_buf text short whole = (
  text,
  omega (
    arith,
    length-append arg (0 ∷ drop (suc (length arg)) w_buf),
    length-drop (suc (length arg)) w_buf,
    whole,
    short,
  ),
)
