-- ===== src/SharedMemory/Tests.antt =====
-- Runs at concrete steps: the programs from a block that an earlier run has left, and the samples.
use linuxapp.Common.{ℕ, none, List, [], ◌∷◌, ◌++◌, replicate, ◌≡◌, some, true, refl, arith}
use linuxapp.Common.Timeval.{zero_time}
use linuxapp.Processes.{running}
use linuxapp.SharedMemory.{read_time}
use linuxapp.SharedMemory.Interface.{bytes, bytes-IsWorking}
use linuxapp.SharedMemory.Latest.{Step, system, system_lem, last_time, block_with, IsRepresentable}
use linuxapp.SharedMemory.Named.{resized}
use linuxapp.SharedMemory.Objects.{Objects, objects, objects-IsWorking, objects-IsContained}
use linuxapp.SharedMemory.Sample.{
  Turn, writes, reads, has_opened, has_unlinked, Reader, ended, killed, write_call, read_call, turn,
  run, samples_start,
}
use linuxapp.SharedMemory.Sample.Calls.{at}
use linuxapp.SharedMemory.Sample.Phase.{is_stored}
use linuxapp.SharedMemory.Sample.Printed.{printed-is_stored}
use linuxapp.SharedMemory.Sample.Late.{is_looking}
use linuxapp.SharedMemory.Sample.Orders.{whole_write, reader_waits, orders_lem}

abbrev steps : List Step
steps =
    Step.join
    ∷ Step.tick (record { tv_sec = 1500000000; tv_usec = 999999 })
    ∷ Step.join
    ∷ Step.tick (record { tv_sec = 1500000002; tv_usec = 17 })
    ∷ []

system_lem_example :
    (t : List ℕ) × (system bytes steps (7 ∷ 8 ∷ 9 ∷ []) ≡ running t)
    × (t ≡ block_with (last_time zero_time steps))
    × (read_time t ≡ some (last_time zero_time steps))
unfolding IsRepresentable
system_lem_example =
    system_lem bytes bytes-IsWorking steps (7 ∷ 8 ∷ 9 ∷ [])
      (omega arith, omega arith, (omega arith, omega arith, tt))

-- The samples, over a system of named objects with none at first.
abbrev no_objects : Objects
no_objects = record { current = none; count = 0; bytes = λ o. [] }

-- The reader opens first, the writer stores, the reader looks twice.
abbrev mixed_turns : List Turn
mixed_turns = reads ∷ reads ∷ reads ∷ writes ∷ writes ∷ writes ∷ writes ∷ reads ∷ reads ∷ []

printed-is_stored_example :
    (◌≡◌ {A = ℕ} 18 18)
    × (is_stored (run objects mixed_turns (samples_start objects no_objects)).writer ≡ true)
unfolding run turn write_call read_call resized
printed-is_stored_example =
    printed-is_stored objects objects-IsContained mixed_turns no_objects 18 (λ p. tt) refl

orders_lem_example :
    ((t : Objects) × (run objects
          (reader_waits 2 ++ (whole_write ++ replicate 3 reads))
          (samples_start objects no_objects)
        ≡ at objects has_unlinked (ended 18) t))
    × ((o : ℕ) × (t : Objects) × (run objects
            (reader_waits 2 ++ writes ∷ reads ∷ [])
            (samples_start objects no_objects)
          ≡ at objects (has_opened o) killed t))
    × ((q : Reader ℕ) × (t : Objects) × (run objects
            (whole_write ++ (reads ∷ writes ∷ reads ∷ []))
            (samples_start objects no_objects)
          ≡ at objects has_unlinked q t)
        × (is_looking q ≡ true))
orders_lem_example =
    orders_lem objects objects-IsWorking 2 (reads ∷ writes ∷ reads ∷ []) no_objects refl
