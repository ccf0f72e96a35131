-- ===== src/SharedMemory/Sample/Printed.antt =====
-- In every order of the calls: what the reading sample can print.
use linuxapp.Common.{ℕ, true, List, [], ◌∷◌, ◌≡◌, refl, sym, ◌∙◌}
use linuxapp.SharedMemory.Named.{Shm, IsContained}
use linuxapp.SharedMemory.Sample.{
  Turn, writes, reads, Writer, Reader, printed, Sys, turn, run, samples_start,
}
use linuxapp.SharedMemory.Sample.Blank.{AllZero}
use linuxapp.SharedMemory.Sample.Phase.{
  is_stored, Knows, Phase, before, after, write_before, read_before, write_after, read_after,
}

module _ (P : Shm) (contained : IsContained P) where
  open P use {State, Object, contents}

  run-Phase :
      (turns : List Turn) (z : Sys P)
      → Phase P z.writer z.reader z.memory
      → Phase P (run P turns z).writer (run P turns z).reader (run P turns z).memory
  unfolding run turn
  run-Phase [] z phase = phase
  run-Phase (writes ∷ turns) z (before b h blank) =
      run-Phase turns _ (write_before P contained z.writer z.reader z.memory b h blank)
  run-Phase (writes ∷ turns) z (after b k) =
      run-Phase turns _ (write_after P contained z.writer z.reader z.memory b k)
  run-Phase (reads ∷ turns) z (before b h blank) =
      run-Phase turns _ (read_before P contained z.writer z.reader z.memory b h blank)
  run-Phase (reads ∷ turns) z (after b k) =
      run-Phase turns _ (read_after P contained z.writer z.reader z.memory b k)

  printed_is_18 :
      (w : Writer Object) (r : Reader Object) (s : State) (v : ℕ)
      → Phase P w r s
      → r ≡ printed v
      → (v ≡ 18) × (is_stored w ≡ true)
  unfolding Knows
  printed_is_18 w (printed u) s v (before b h blank) e = cc
  printed_is_18 w (printed u) s v (after b k) e = let same : u ≡ v = cc in (sym same ∙ k, b)
  printed_is_18 w _ s v phase e = cc

  -- In every order of the two programs' calls, whether or not calls fail, if no object holds a byte
  -- other than 0 at first: what sample_read.c prints is 18, and sample_write.c has stored it then.
  pub printed-is_stored :
      (turns : List Turn) (s : State) (v : ℕ)
      → ((p : Object) → AllZero (contents p s))
      → (run P turns (samples_start P s)).reader ≡ printed v
      → (v ≡ 18) × (is_stored (run P turns (samples_start P s)).writer ≡ true)
  printed-is_stored turns s v blank e =
      printed_is_18 _ _ _ v (run-Phase turns (samples_start P s) (before refl refl blank)) e
