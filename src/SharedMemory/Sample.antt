-- ===== src/SharedMemory/Sample.antt =====
-- iMX287Learn/sharememory/doc/sample_write.c and sample_read.c: one program makes a block, writes
-- 18 into it and deletes it, the other waits for the 18. Their calls may come in any order.
pub mod Blank
pub mod Phase
pub mod Printed
pub mod Calls
pub mod Late
pub mod Orders
use linuxapp.Common.{ℕ, ◌==◌, true, false, if◌then◌else◌, Option, none, some, List, [], ◌∷◌}
use linuxapp.SharedMemory.Named.{Shm}

-- SHMSIZE
abbrev pub shmsize : ℕ
shmsize = 10

-- Whose next call comes.
pub data Turn : Type 0 where
  writes reads : Turn

-- Where a program stands, by what it has done last. Either exits where a call fails, and is killed
-- where it touches a page of the mapping that the object does not have.
pub data Writer (O : Type 0) : Type 0 where
  to_open : Writer O
  has_opened has_sized has_mapped : O → Writer O
  has_stored has_unlinked is_failed is_killed : Writer O

pub data Reader (O : Type 0) : Type 0 where
  at_start : Reader O
  with_object with_mapping polling seen : O → Reader O
  printed ended : ℕ → Reader O
  failed killed : Reader O

module _ (P : Shm) where
  open P use {State, Object}

  -- The next call of sample_write.c; munmap, which it makes before it unlinks, is left out.
  unfoldable pub write_call : Writer Object → State → Writer Object × State
  write_call to_open s = elim (P.shm_open true s) [
    | none ↦ (is_failed, s)
    | some (o, t) ↦ (has_opened o, t)
  ]
  write_call (has_opened o) s = elim (P.ftruncate shmsize o s) [
    | none ↦ (has_sized o, s)
    | some t ↦ (has_sized o, t)
  ]
  write_call (has_sized o) s = elim (P.mmap shmsize o s) [
    | none ↦ (is_failed, s)
    | some t ↦ (has_mapped o, t)
  ]
  write_call (has_mapped o) s = elim (P.contents o s) [
    | [] ↦ (is_killed, s)
    | b ∷ rest ↦ (has_stored, P.store o 18 s)
  ]
  write_call has_stored s = (has_unlinked, P.shm_unlink s)
  write_call has_unlinked s = (has_unlinked, s)
  write_call is_failed s = (is_failed, s)
  write_call is_killed s = (is_killed, s)

  -- The next call of sample_read.c, or its next look at the first byte.
  unfoldable pub read_call : Reader Object → State → Reader Object × State
  read_call at_start s = elim (P.shm_open false s) [
    | none ↦ (failed, s)
    | some (o, t) ↦ (with_object o, t)
  ]
  read_call (with_object o) s = elim (P.mmap shmsize o s) [
    | none ↦ (failed, s)
    | some t ↦ (with_mapping o, t)
  ]
  read_call (with_mapping o) s = elim (P.ftruncate shmsize o s) [
    | none ↦ (polling o, s)
    | some t ↦ (polling o, t)
  ]
  read_call (polling o) s = elim (P.contents o s) [
    | [] ↦ (killed, s)
    | b ∷ rest ↦ ((if b == 18 then seen o else polling o), s)
  ]
  read_call (seen o) s = elim (P.contents o s) [ [] ↦ (killed, s) | b ∷ rest ↦ (printed b, s) ]
  read_call (printed v) s = (ended v, P.shm_unlink s)
  read_call (ended v) s = (ended v, s)
  read_call failed s = (failed, s)
  read_call killed s = (killed, s)

  pub record Sys : Type 0 where
    pub writer : Writer Object
    pub reader : Reader Object
    pub memory : State

  unfoldable pub turn : Turn → Sys → Sys
  unfolding write_call read_call
  turn writes z = let (w, s) = write_call z.writer z.memory in record z { writer = w; memory = s }
  turn reads z = let (r, s) = read_call z.reader z.memory in record z { reader = r; memory = s }

  unfoldable pub run : List Turn → Sys → Sys
  unfolding turn
  run [] z = z
  run (t ∷ turns) z = run turns (turn t z)

  -- Both programs before their first calls.
  abbrev pub samples_start : State → Sys
  samples_start s = record { writer = to_open; reader = at_start; memory = s }
