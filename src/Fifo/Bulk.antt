-- ===== src/Fifo/Bulk.antt =====
-- iMX287Learn/fifo/doc/fifowrite.c and fiforead.c: ten megabytes through a named pipe, once both
-- have opened it. A call that has to wait is a turn in which nothing happens: a write that the pipe
-- makes wait, and a read of an empty pipe that the other side has not closed; if it has, the read
-- gives 0 bytes. `none` is an error of a call: the writer ends there, and the reader takes one off
-- its count and leaves its loop.
pub mod Sound
pub mod Ends
use linuxapp.Common.{
  ℕ, zero, suc, ◌+◌, ◌*◌, ◌≤◌, ◌<◌, ltb, leb, Bool, true, false, if◌then◌else◌, Option, some, ◌>>=◌,
  List, [], ◌∷◌, length, ◌≡◌, refl, ◌⊎◌, inl, inr, arith, none, not, ◌&&◌, Bool-cases, leb→le,
  ltb→lt, ◌∙◌, length-append, ap, lt→ltb, le→leb,
}
use linuxapp.Common.Channel.{capacity, Pipe, IsFifo, IsWorking, read_all, write_all}
use linuxapp.Common.Int.{ℤ, negsuc, pos}
use linuxapp.Drivers.{is_nonzero}
use linuxapp.Fifo.Stream.{Turn, writer, reader}

-- TEN_MEG, and BUFFER_SIZE, which is PIPE_BUF.
abbrev pub ten_meg : ℕ
ten_meg = 1024 * 1024 * 10

abbrev pub buffer_size : ℕ
buffer_size = 4096

-- A file that open refuses ends either program.
unfoldable or_failure : ℤ → Option ℤ
or_failure (negsuc zero) = none
or_failure fd = some fd

-- fifowrite.c up to its loop, by whether access finds the pipe, and what mkfifo and open answer.
unfoldable fifowrite_start : Bool → ℤ → ℤ → Option ℤ
unfolding or_failure
fifowrite_start existed made fd = if not existed && is_nonzero made then none else or_failure fd

-- fiforead.c up to its loop.
unfoldable fiforead_start : ℤ → Option ℤ
unfolding or_failure
fiforead_start fd = or_failure fd

-- Turns of both, so many times.
unfoldable pub alternate : ℕ → List Turn
alternate zero = []
alternate (suc n) = writer ∷ reader ∷ alternate n

-- Whether a write has to wait is the pipe's matter: not as long as there is room in a page, and
-- where it does not wait it reports no error.
pub record IsBlocking (P : Pipe) (waits : P.State → ℕ → Bool) : Type 0 where
  pub has_room : (s : P.State) (n : ℕ) → length (P.contents s) + n ≤ capacity → waits s n ≡ false
  pub goes_on :
      (s : P.State) (bs : List ℕ)
      → waits s (length bs) ≡ false
      → (n : ℕ) × (t : P.State) × (P.write s bs ≡ some (n, t))

module _ (P : Pipe) (waits : P.State → ℕ → Bool) where
  open P use {State, contents}

  -- The pipe, `bytes` of either program, and who has come to its end.
  pub record Transfer : Type 0 where
    pub pipe : State
    pub written : ℕ
    pub received : ℕ
    pub closed : Bool
    pub finished : Bool

  -- A round of fifowrite.c's loop, or its end. What its buffer holds is never set.
  unfoldable pub write_round : List ℕ → Transfer → Option Transfer
  write_round buffer b =
      if ltb b.written ten_meg
      then (if waits b.pipe buffer_size then some b else (do
        (res, t) ← P.write b.pipe buffer
        some (record b { pipe = t; written = b.written + res })))
      else some (record b { closed = true })

  -- A round of fiforead.c's loop, or its end.
  unfoldable pub read_round : Transfer → Option Transfer
  read_round b =
      if ltb 0 (length (contents b.pipe))
      then (do
        (bytes, t) ← P.read b.pipe buffer_size
        some (record b { pipe = t; received = b.received + length bytes }))
      else if b.closed
      then some (record b { finished = true })
      else some b

  unfoldable pub transfer : List ℕ → List Turn → Transfer → Option Transfer
  unfolding write_round read_round
  transfer buffer [] b = some b
  transfer buffer (writer ∷ turns) b = write_round buffer b >>= transfer buffer turns
  transfer buffer (reader ∷ turns) b = read_round b >>= transfer buffer turns

  -- Both programs before their loops.
  abbrev pub opened : State → Transfer
  opened s = record { pipe = s; written = 0; received = 0; closed = false; finished = false }

  -- What holds between the turns.
  pub record IsSound (b : Transfer) : Type 0 where
    pub balance : b.received + length (contents b.pipe) ≡ b.written
    pub blocks : (k : ℕ) × (b.written ≡ k * 4096) × (k ≤ 2560)
    pub closing : (b.closed ≡ false) ⊎ (b.written ≡ ten_meg)
    pub ending : (b.finished ≡ false) ⊎ ((b.closed ≡ true) × (length (contents b.pipe) ≡ 0))
