-- ===== src/Common/Channel.antt =====
-- What programs assume of a stream of bytes between them, a named pipe or one direction of a
-- socket, and a stream that meets it.
use mathlib.Core.List.{append-nil}
use linuxapp.Common.{
  ℕ, ◌≤◌, Option, some, List, [], ◌∷◌, zero, suc, ◌++◌, length, take, drop, ◌≡◌, refl, arith,
  take-append-drop, length-take, ◌+◌, ◌<◌, ◌∙◌, ap, sym,
}

-- `none` is an error that the call reports.
pub record Pipe : Type 1 where
  pub State : Type 0
  pub contents : State → List ℕ
  pub write : State → List ℕ → Option (ℕ × State)
  pub read : State → ℕ → Option (List ℕ × State)

-- Bytes come out as they went in, a write returns the number of its bytes, and a read gives no more
-- than it was asked for.
pub record IsFifo (P : Pipe) : Type 0 where
  pub contents-write :
      (s t : P.State) (bs : List ℕ) (n : ℕ)
      → P.write s bs ≡ some (n, t)
      → P.contents t ≡ P.contents s ++ bs
  pub length-write :
      (s t : P.State) (bs : List ℕ) (n : ℕ) → P.write s bs ≡ some (n, t) → n ≡ length bs
  pub contents-read :
      (s t : P.State) (bs : List ℕ) (n : ℕ)
      → P.read s n ≡ some (bs, t)
      → P.contents s ≡ bs ++ P.contents t
  pub length-read :
      (s t : P.State) (bs : List ℕ) (n : ℕ) → P.read s n ≡ some (bs, t) → length bs ≤ n

-- The bytes that a pipe holds at least before a write of more has to wait: a page.
abbrev pub capacity : ℕ
capacity = 4096

-- A write that has room and a read that finds bytes report no error, and a read takes all that
-- there is if it asks for as much.
pub record IsWorking (P : Pipe) : Type 0 where
  pub written :
      (s : P.State) (bs : List ℕ)
      → length (P.contents s) + length bs ≤ capacity
      → (n : ℕ) × (t : P.State) × (P.write s bs ≡ some (n, t))
  pub was_read :
      (s : P.State) (n : ℕ)
      → 0 < length (P.contents s)
      → (bs : List ℕ) × (t : P.State) × (P.read s n ≡ some (bs, t))
  pub emptied :
      (s t : P.State) (bs : List ℕ) (n : ℕ)
      → P.read s n ≡ some (bs, t)
      → length (P.contents s) ≤ n
      → P.contents t ≡ []

module _ (P : Pipe) (fifo : IsFifo P) (works : IsWorking P) where
  open P use {State, contents}

  -- A read that asks for at least what there is takes it all.
  pub read_all :
      (s : State) (n : ℕ)
      → 0 < length (contents s)
      → length (contents s) ≤ n
      → (t : State) × (P.read s n ≡ some (contents s, t)) × (contents t ≡ [])
  read_all s n some_there fits =
      let (bs, t, e) = works.was_read s n some_there in
      let rest = works.emptied s t bs n e fits in
      let whole : contents s ≡ bs =
        fifo.contents-read s t bs n e ∙ ap (◌++◌ bs) rest ∙ append-nil bs in
      (t, e ∙ ap (λ b. some (b, t)) (sym whole), rest)

  -- A write that has room is done.
  pub write_all :
      (s : State) (bs : List ℕ)
      → length (contents s) + length bs ≤ capacity
      → (n : ℕ) × (t : State) × (P.write s bs ≡ some (n, t)) × (contents t ≡ contents s ++ bs)
  write_all s bs room =
      let (n, t, e) = works.written s bs room in (n, t, e, fifo.contents-write s t bs n e)

  -- What is written to an empty pipe is what the next read gives, if it asks for as much.
  pub passes_through :
      (s : State) (bs : List ℕ) (n : ℕ)
      → contents s ≡ []
      → 0 < length bs
      → length bs ≤ n
      → n ≤ capacity
      → (count : ℕ) × (t : State) × (u : State) × (P.write s bs ≡ some (count, t))
        × (P.read t n ≡ some (bs, u))
        × (contents u ≡ [])
  passes_through s bs n empty some_there fits room =
      let (count, t, e, there) = write_all s bs (rw empty (omega (arith, fits, room))) in
      let same : contents t ≡ bs = rw empty at there in
      let (u, e2, rest) = read_all t n (rw same some_there) (rw same fits) in
      (count, t, u, e, rw same at e2, rest)

-- The pipe that holds its bytes in a list and gives all that is asked for and there.
abbrev pub queue : Pipe
queue = record {
  State = List ℕ;
  contents = λ s. s;
  write = λ s bs. some (length bs, s ++ bs);
  read = λ s n. some (take n s, drop n s);
}

read_parts : (s t bs : List ℕ) (n : ℕ) → queue.read s n ≡ some (bs, t) → s ≡ bs ++ t
read_parts s t bs n e = cc (take-append-drop n s)

read_length : (s t bs : List ℕ) (n : ℕ) → queue.read s n ≡ some (bs, t) → length bs ≤ n
read_length s t bs n e =
    let same : take n s ≡ bs = cc in rw (← same) (omega (arith, length-take n s))

pub queue-IsFifo : IsFifo queue
queue-IsFifo = record {
  contents-write = λ s t bs n e. cc;
  length-write = λ s t bs n e. cc;
  contents-read = λ s t bs n e. read_parts s t bs n e;
  length-read = λ s t bs n e. read_length s t bs n e;
}

pub nothing_left : (s : List ℕ) (n : ℕ) → length s ≤ n → drop n s ≡ []
nothing_left [] zero h = refl
nothing_left [] (suc n) h = refl
nothing_left (x ∷ s) zero h = absurd (omega arith)
nothing_left (x ∷ s) (suc n) h = nothing_left s n (omega arith)

read_empties : (s t bs : List ℕ) (n : ℕ) → queue.read s n ≡ some (bs, t) → length s ≤ n → t ≡ []
read_empties s t bs n e h = cc (nothing_left s n h)

pub queue-IsWorking : IsWorking queue
queue-IsWorking = record {
  written = λ s bs room. (length bs, s ++ bs, refl);
  was_read = λ s n some_there. (take n s, drop n s, refl);
  emptied = read_empties;
}
