-- ===== src/Fifo/Stream.antt =====
-- Runs of the two programs in any order, and the text that the reading one prints.
use mathlib.Core.List.{append-nil, append_assoc}
use linuxapp.Common.{
  ℕ, ◌+◌, ◌≤◌, ◌<◌, ltb, Bool, true, ◌&&◌, Option, some, ◌>>=◌, List, [], ◌∷◌, ◌++◌, length, ◌≡◌,
  refl, ap, sym, ◌∙◌, arith, length-append, &&_parts, ltb→lt, leb, lt→ltb, leb→le,
}
use linuxapp.Common.CString.{strlen, IsText, IsText-append, IsText-parts, c_string-zeros}
use linuxapp.Fifo.{greeting, buff_size, pthread_wfifo, pthread_rfifo, fifo_write, fifo_read}
use linuxapp.Common.Channel.{capacity, Pipe, IsFifo, IsWorking, read_all, write_all}

-- Whose round comes next.
pub data Turn : Type 0 where
  writer reader : Turn

-- The text that the writer sends in its turns.
unfoldable pub sent : List Turn → List ℕ
sent [] = []
sent (writer ∷ turns) = greeting ++ sent turns
sent (reader ∷ turns) = sent turns

-- No call has to wait, and the reader keeps up: with so many bytes pending at first, every write
-- has room, and every read finds bytes, but fewer than its buffer has.
unfoldable pub keeps_up : ℕ → List Turn → Bool
keeps_up pending [] = true
keeps_up pending (writer ∷ turns) = leb (pending + 29) capacity && keeps_up (pending + 29) turns
keeps_up pending (reader ∷ turns) = ltb 0 pending && (ltb pending buff_size && keeps_up 0 turns)

module _ (P : Pipe) where
  open P use {State, contents}

  -- The text printed, and the pipe afterwards.
  unfoldable pub run : List Turn → State → Option (List ℕ × State)
  run [] s = some ([], s)
  run (writer ∷ turns) s = pthread_wfifo P s >>= run turns
  run (reader ∷ turns) s = do
    (text, t) ← pthread_rfifo P s
    (rest, u) ← run turns t
    some (text ++ rest, u)

greeting-IsText : IsText greeting
unfolding IsText
greeting-IsText = omega arith

module _ (P : Pipe) (fifo : IsFifo P) (works : IsWorking P) where
  open P use {State, contents}

  write_round :
      (s : State)
      → length (contents s) + 29 ≤ capacity
      → (t : State) × (pthread_wfifo P s ≡ some t) × (contents t ≡ contents s ++ greeting)
  unfolding pthread_wfifo fifo_write strlen
  write_round s room =
      let (n, t, e, same) = write_all P fifo works s greeting room in
      (t, ap (λ r. r >>= λ x. some x.1) e, same)

  read_round :
      (s : State)
      → IsText (contents s)
      → 0 < length (contents s)
      → length (contents s) < buff_size
      → (text : List ℕ) × (t : State) × (pthread_rfifo P s ≡ some (text, t))
        × (contents s ≡ text ++ contents t)
        × (contents t ≡ [])
  unfolding pthread_rfifo fifo_read
  read_round s text some_there small =
      let (t, e, empty) = read_all P fifo works s buff_size some_there (omega (arith, small)) in
      (
        contents s,
        t,
        rw e (
            rw (lt→ltb 0 (length (contents s)) some_there)
              (rw (c_string-zeros buff_size (contents s) text small) refl)),
        sym (append-nil (contents s)) ∙ ap (◌++◌ (contents s)) (sym empty),
        empty,
      )

  run_from :
      (turns : List Turn) (s : State) (pending : ℕ)
      → IsText (contents s)
      → length (contents s) ≡ pending
      → keeps_up pending turns ≡ true
      → (out : List ℕ) × (t : State) × (run P turns s ≡ some (out, t))
        × (contents s ++ sent turns ≡ out ++ contents t)
  unfolding run sent keeps_up
  run_from [] s pending text count ok = ([], s, refl, append-nil (contents s))
  run_from (writer ∷ turns) s pending text count ok =
      let (room, later) =
        &&_parts (leb (pending + 29) capacity) (keeps_up (pending + 29) turns) ok in
      let (t, e, same) = write_round s (omega (arith, leb→le (pending + 29) capacity room)) in
      let more : length (contents t) ≡ pending + 29 =
        rw same (omega (arith, length-append (contents s) greeting)) in
      let clean : IsText (contents t) =
        rw same (IsText-append (contents s) greeting text greeting-IsText) in
      let (out, u, e2, all) = run_from turns t (pending + 29) clean more later in
      (
        out,
        u,
        rw e e2,
        sym (append_assoc (contents s) greeting (sent turns))
            ∙ ap (λ bs. bs ++ sent turns) (sym same)
            ∙ all,
      )
  run_from (reader ∷ turns) s pending text count ok =
      let (there, rest) = &&_parts (ltb 0 pending) (ltb pending buff_size && keeps_up 0 turns) ok in
      let (small, later) = &&_parts (ltb pending buff_size) (keeps_up 0 turns) rest in
      let (shown, t, e, parts, empty) =
        read_round s text (omega (arith, ltb→lt 0 pending there))
          (omega (arith, ltb→lt pending buff_size small)) in
      let clean : IsText (contents t) = (IsText-parts shown (contents t) (rw (← parts) text)).1 in
      let (out, u, e2, all) = run_from turns t 0 clean (ap length empty) later in
      (
        shown ++ out,
        u,
        rw e (rw e2 refl),
        ap (λ bs. bs ++ sent turns) parts
            ∙ append_assoc shown (contents t) (sent turns)
            ∙ ap (◌++◌ shown) all
            ∙ sym (append_assoc shown out (contents u)),
      )

  -- Over a pipe that meets its laws, from a text in it on: in every order of rounds in which no
  -- call has to wait and fewer bytes than the reader's buffer are pending at each read, the run
  -- ends, and what was pending and is sent is what the reader prints and what is left in the pipe,
  -- in order.
  pub run_lem :
      (turns : List Turn) (s : State)
      → IsText (contents s)
      → keeps_up (length (contents s)) turns ≡ true
      → (out : List ℕ) × (t : State) × (run P turns s ≡ some (out, t))
        × (contents s ++ sent turns ≡ out ++ contents t)
  run_lem turns s text ok = run_from turns s (length (contents s)) text refl ok
