-- ===== src/MsgQueue/Transfer.antt =====
-- A string from msg_snd to msg_rcv.
use linuxapp.Common.{
  ℕ, ◌+◌, ◌-◌, ◌≤◌, ◌<◌, leb, if◌then◌else◌, Option, none, some, ◌>>=◌, List, ◌∷◌, ◌++◌, length,
  replicate, ◌≡◌, refl, ap, ◌∙◌, arith, inl, inr, Bool-cases, length-append, leb→le, le→leb, false,
  replicate_pos, take-append, take_past,
}
use mathlib.Core.List.{append-nil, append_assoc}
use linuxapp.Common.CString.{
  strlen, IsText, strlen_lem, strlen-none, zeros, take-zeros, zeros-append,
}
use linuxapp.Common.Int.{ℤ, is_negative}
use linuxapp.MsgQueue.{as_long, text_max, copied, msg_snd, msg_rcv}

-- The array after msg_snd's memcpy.
abbrev array_of : List ℕ → List ℕ
array_of cs = cs ++ zeros (text_max - length cs)

copied_lem :
    (cs rest : List ℕ) → length cs ≤ text_max → copied (length cs) (cs ++ rest) ≡ some (array_of cs)
unfolding copied
copied_lem cs rest h = rw (le→leb (length cs) text_max h) (rw (take-append cs rest) refl)

copied-none :
    (cs rest : List ℕ) → leb (length cs) text_max ≡ false → copied (length cs) (cs ++ rest) ≡ none
unfolding copied
copied-none cs rest h = rw h refl

strlen-array :
    (cs : List ℕ) → IsText cs → length cs < text_max → strlen (array_of cs) ≡ some (length cs)
strlen-array cs t h =
    ap (λ z. strlen (cs ++ z)) (replicate_pos (text_max - length cs) 0 (omega arith))
    ∙ strlen_lem cs (zeros (text_max - length cs - 1)) t

msg_snd_lem :
    (msgsnd : ℤ × List ℕ → ℤ) (msgid : ℕ) (cs rest : List ℕ)
    → IsText cs
    → length cs ≤ 508
    → msg_snd msgsnd msgid (cs ++ 0 ∷ rest) ≡ (
        if is_negative (msgsnd (as_long msgid, cs ++ zeros 4))
        then none
        else some (as_long msgid, cs ++ zeros 4))
unfolding msg_snd
msg_snd_lem msgsnd msgid cs rest t h = rw (strlen_lem cs rest t) (
    rw (copied_lem cs (0 ∷ rest) (omega arith)) (
      rw (strlen-array cs t (omega arith)) (
        rw (le→leb (4 + length cs) text_max (omega arith)) (
          rw (take_past 4 cs (zeros (text_max - length cs)))
            (rw (take-zeros 4 (text_max - length cs) (omega arith)) refl)))))

-- A message of at most 508 bytes, from the queue.
delivered :
    (type_id : ℤ) (cs : List ℕ)
    → length cs ≤ 508
    → msg_rcv (type_id, cs ++ zeros 4)
      ≡ some (
        record { type_id = type_id; text = cs ++ replicate (text_max - length cs) 0 },
        length cs + 4,
      )
unfolding msg_rcv
delivered type_id cs h = rw size (
    rw (le→leb (length cs + 4) text_max (omega arith))
      (rw (append_assoc cs (zeros 4) (zeros (text_max - (length cs + 4)))) (rw filled refl)))
  where
    size : length (cs ++ zeros 4) ≡ length cs + 4
    size = length-append cs (zeros 4)

    filled : zeros 4 ++ zeros (text_max - (length cs + 4)) ≡ zeros (text_max - length cs)
    filled = zeros-append 4 (text_max - (length cs + 4)) ∙ ap zeros same
      where
        same : 4 + (text_max - (length cs + 4)) ≡ text_max - length cs
        same = omega arith

past_end : (b c : ℕ) → c < b → leb b c ≡ false
past_end b c h = ground arith

array-full : (cs : List ℕ) → IsText cs → length cs ≡ text_max → strlen (array_of cs) ≡ none
array-full cs t e = ap strlen (ap (λ n. cs ++ zeros n) none_left ∙ append-nil cs) ∙ strlen-none cs t
  where
    none_left : text_max - length cs ≡ 0
    none_left = omega arith

-- With 512 bytes or more nothing that is read from the array helps.
copied_past :
    (cs rest : List ℕ)
    → IsText cs
    → 511 < length cs
    → (f : ℕ → List ℕ → Option (ℤ × List ℕ))
    → (copied (length cs) (cs ++ rest) >>= λ text. strlen text >>= λ m. f m text) ≡ none
copied_past cs rest t h f = elim (Bool-cases (leb (length cs) text_max)) [
  | inl fits ↦
      rw (copied_lem cs rest (leb→le (length cs) text_max fits))
        (rw (array-full cs t (omega (arith, leb→le (length cs) text_max fits))) refl)
  | inr past ↦ rw (copied-none cs rest past) refl
]

-- A longer string makes msg_snd leave its array: the copy from 513 bytes on, the search for the end
-- at 512, and msgsnd's read of the message from 509 on.
msg_snd_overflow :
    (msgsnd : ℤ × List ℕ → ℤ) (msgid : ℕ) (cs rest : List ℕ)
    → IsText cs
    → 508 < length cs
    → msg_snd msgsnd msgid (cs ++ 0 ∷ rest) ≡ none
unfolding msg_snd
msg_snd_overflow msgsnd msgid cs rest t h =
    rw (strlen_lem cs rest t) (elim (Bool-cases (leb (length cs) 511)) [
      | inl small ↦ rw (copied_lem cs (0 ∷ rest) (omega (arith, leb→le (length cs) 511 small))) (
          rw (strlen-array cs t (omega (arith, leb→le (length cs) 511 small)))
            (rw (past_end (4 + length cs) text_max (omega arith)) refl))
      | inr big ↦ copied_past cs (0 ∷ rest) t (not_small big) _
    ])
  where
    not_small : leb (length cs) 511 ≡ false → 511 < length cs
    not_small big = ground arith

-- Of a string of at most 508 bytes, whatever stands behind its 0 in the sender's memory: if msgsnd
-- takes the message it arrives with its number, as a long of four bytes, in an array filled up with
-- zeros, and msg_rcv returns four more than the string's length; if msgsnd refuses it the sender's
-- program ends. With more bytes msg_snd leaves its array.
pub msg_snd-msg_rcv :
    (msgsnd : ℤ × List ℕ → ℤ) (msgid : ℕ) (cs rest : List ℕ)
    → IsText cs
    → (msg_snd msgsnd msgid (cs ++ 0 ∷ rest) >>= msg_rcv) ≡ (
        if leb (length cs) 508
        then (if is_negative (msgsnd (as_long msgid, cs ++ zeros 4))
            then none
            else some (
              record { type_id = as_long msgid; text = cs ++ replicate (text_max - length cs) 0 },
              length cs + 4,
            ))
        else none)
msg_snd-msg_rcv msgsnd msgid cs rest t = elim (Bool-cases (leb (length cs) 508)) [
  | inl fits ↦
      let short = leb→le (length cs) 508 fits in
      rw fits (
        rw (msg_snd_lem msgsnd msgid cs rest t short)
          (elim (Bool-cases (is_negative (msgsnd (as_long msgid, cs ++ zeros 4)))) [
            | inl refused ↦ rw refused refl
            | inr taken ↦ rw taken (delivered (as_long msgid) cs short)
          ]))
  | inr past ↦ rw past (rw (msg_snd_overflow msgsnd msgid cs rest t (longer past)) refl)
]
  where
    longer : leb (length cs) 508 ≡ false → 508 < length cs
    longer past = ground arith
