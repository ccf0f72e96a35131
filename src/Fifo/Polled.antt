-- ===== src/Fifo/Polled.antt =====
-- iMX287Learn/fifo/doc/fifoexa0: writefifo.c sends its argument through a named pipe, and
-- readfifo.c prints once a second what it finds there. Neither waits for the other. `none` is a
-- write or a read outside of an array. The line `no data yet` is left out.
pub mod Interface
pub mod Frames
pub mod Rounds
pub mod Due
pub mod Delivery
use linuxapp.Common.{
  ℕ, suc, ◌-◌, ltb, Bool, true, if◌then◌else◌, Option, none, some, ◌>>=◌, List, [], ◌∷◌, ◌++◌,
  length, drop,
}
use linuxapp.Common.CString.{c_string, zeros}
use linuxapp.Fifo.Polled.Interface.{NoWait}

-- The size of both buffers, and of each write and read.
abbrev pub buf_size : ℕ
buf_size = 100

-- `strcpy` of <string.h> into an array: the text and its end over the array's first characters.
unfoldable pub strcpy : List ℕ → List ℕ → Option (List ℕ)
strcpy array text =
    if ltb (length text) (length array)
    then some (text ++ 0 ∷ drop (suc (length text)) array)
    else none

-- What writefifo.c prints.
pub data Report : Type 0 where
  send_something not_been_read : Report
  wrote : List ℕ → Report

module _ (P : NoWait) where
  open P use {State}

  -- The write of writefifo.c, by whether its open found a reader, and what it prints then. Without
  -- a reader the write fails, since there is no descriptor.
  unfoldable pub write_buf : Bool → List ℕ → State → Option (Report × State)
  write_buf opened buf s = elim (if opened then P.write s buf else none) [
    | none ↦ some (not_been_read, s)
    | some (n, t) ↦ c_string buf >>= λ text. some (wrote text, t)
  ]

  -- `main` of writefifo.c, with its argument, if it has one, and what its array held.
  unfoldable pub write_main : Bool → Option (List ℕ) → List ℕ → State → Option (Report × State)
  unfolding strcpy write_buf
  write_main opened none w_buf s = some (send_something, s)
  write_main opened (some arg) w_buf s = strcpy w_buf arg >>= λ buf. write_buf opened buf s

  -- A round of readfifo.c's loop: what it prints of its buffer.
  unfoldable pub read_round : State → Option (List ℕ × State)
  read_round s = elim (P.read s buf_size) [
    | none ↦ c_string (zeros buf_size) >>= λ text. some (text, s)
    | some (bytes, t) ↦
        c_string (bytes ++ zeros (buf_size - length bytes)) >>= λ text. some (text, t)
  ]

  -- A reader, and any number of writers one after the other: what they have printed.
  pub record Sys : Type 0 where
    pub reading : Bool
    pub pipe : State
    pub said : List Report
    pub shown : List (List ℕ)

-- The reader opens the pipe, which succeeds, a writer runs, or the reader makes a round.
pub data Step : Type 0 where
  opens looks : Step
  sends : Option (List ℕ) → List ℕ → Step

module _ (P : NoWait) where
  unfoldable pub step : Step → Sys P → Option (Sys P)
  unfolding write_main read_round
  step opens z = some (record z { reading = true })
  step looks z =
      let round = read_round P z.pipe in
      if z.reading
      then (round >>= λ (text, t). some (record z { pipe = t; shown = z.shown ++ text ∷ [] }))
      else some z
  step (sends arg w_buf) z = write_main P z.reading arg w_buf z.pipe >>= λ (report, t).
      some (record z { pipe = t; said = z.said ++ report ∷ [] })

  unfoldable pub run : List Step → Sys P → Option (Sys P)
  unfolding step
  run [] z = some z
  run (st ∷ steps) z = step st z >>= λ z'. run steps z'
