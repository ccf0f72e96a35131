-- ===== src/Fifo/Bulk/Ends.antt =====
-- How the two programs come to their ends.
use linuxapp.Common.{
  ℕ, zero, suc, ◌+◌, ◌*◌, Bool, true, false, some, List, [], length, ◌≡◌, refl, ◌⊎◌, arith, ◌∙◌, ap,
}
use linuxapp.Common.Channel.{Pipe, IsFifo, IsWorking}
use linuxapp.Fifo.Stream.{Turn}
use linuxapp.Fifo.Bulk.{
  ten_meg, buffer_size, alternate, IsBlocking, Transfer, write_round, read_round, transfer, opened,
}
use linuxapp.Fifo.Bulk.Sound.{write_more, read_more, transfer-IsSound, opened-IsSound, finished_all}

module _ (P : Pipe) (waits : P.State → ℕ → Bool) (fifo : IsFifo P) (works : IsWorking P)
    (blocking : IsBlocking P waits) (buffer : List ℕ) (whole : length buffer ≡ buffer_size) where
  open P use {State, contents}

  last_write :
      (b : Transfer P waits)
      → b.written ≡ ten_meg
      → write_round P waits buffer b ≡ some (record b { closed = true })
  unfolding write_round
  last_write b all = rw all refl

  last_read :
      (b : Transfer P waits)
      → contents b.pipe ≡ []
      → b.closed ≡ true
      → read_round P waits b ≡ some (record b { finished = true })
  unfolding read_round
  last_read b empty over = rw empty (rw over refl)

  -- From an empty pipe, in alternation, both come to their ends.
  alternate_lem :
      (n : ℕ) (b : Transfer P waits)
      → contents b.pipe ≡ []
      → b.written + n * 4096 ≡ ten_meg
      → (c : Transfer P waits) × (transfer P waits buffer (alternate (suc n)) b ≡ some c)
        × (c.finished ≡ true)
  unfolding transfer alternate
  alternate_lem zero b empty all = (
    record b { closed = true; finished = true },
    rw (last_write b (omega (arith, all)))
        (rw (last_read (record b { closed = true }) empty refl) refl),
    refl,
  )
  alternate_lem (suc n) b empty all =
      let (t, e, added) =
        write_more P waits fifo works blocking buffer whole b (omega (arith, all))
          (blocking.has_room b.pipe buffer_size (rw empty (omega arith))) in
      let full : length (contents t) ≡ 4096 = added ∙ ap (λ n. n + 4096) (ap length empty) in
      let c : Transfer P waits = record b { pipe = t; written = b.written + 4096 } in
      let (u, e2, taken) =
        read_more P waits fifo works blocking buffer whole c (omega (arith, full))
          (omega (arith, full)) in
      let (d, e3, done) =
        alternate_lem n (record c { pipe = u; received = c.received + length (contents t) }) taken
          (omega (arith, all)) in
      (d, rw e (rw e2 e3), done)

  -- Over a pipe that meets its laws, empty at first, whatever its size, in every order of turns: no
  -- call fails, the bytes received and those in the pipe are as many as were written, and the
  -- reader comes to its end only with ten megabytes received. And 2561 turns of each in alternation
  -- bring it there.
  pub transfer_lem :
      (turns : List Turn) (s : State)
      → contents s ≡ []
      → (b c : Transfer P waits) × (transfer P waits buffer turns (opened P waits s) ≡ some b)
        × (b.received + length (contents b.pipe) ≡ b.written)
        × ((b.finished ≡ false) ⊎ (b.received ≡ ten_meg))
        × (transfer P waits buffer (alternate 2561) (opened P waits s) ≡ some c)
        × (c.finished ≡ true)
  transfer_lem turns s empty =
      let (b, e, sound) =
        transfer-IsSound P waits fifo works blocking buffer whole turns (opened P waits s)
          (opened-IsSound P waits fifo works blocking buffer whole s empty) in
      let (c, e2, done) = alternate_lem 2560 (opened P waits s) empty (omega arith) in
      (
        b,
        c,
        e,
        sound.balance,
        finished_all P waits fifo works blocking buffer whole b sound,
        e2,
        done,
      )
