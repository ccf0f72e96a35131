-- ===== src/SharedMemory/Sample/Calls.antt =====
-- The next call of each sample, where the system's call gives what it should.
use linuxapp.Common.{ℕ, true, false, some, List, [], ◌∷◌, ◌++◌, ◌≡◌, refl, ap}
use linuxapp.SharedMemory.Named.{Shm}
use linuxapp.SharedMemory.Sample.{
  shmsize, Turn, writes, reads, Writer, to_open, has_opened, has_sized, has_mapped, has_stored,
  has_unlinked, Reader, at_start, with_object, with_mapping, polling, seen, printed, ended, killed,
  write_call, read_call, Sys, turn, run,
}

module _ (P : Shm) where
  open P use {State, Object, named, contents}

  abbrev pub at : Writer Object → Reader Object → State → Sys P
  at w r s = record { writer = w; reader = r; memory = s }

  run_writes :
      (turns : List Turn) (w x : Writer Object) (r : Reader Object) (s t : State)
      → write_call P w s ≡ (x, t)
      → run P (writes ∷ turns) (at w r s) ≡ run P turns (at x r t)
  unfolding run turn
  run_writes turns w x r s t e = ap (λ q. run P turns (at q.0 r q.1)) e

  run_reads :
      (turns : List Turn) (w : Writer Object) (r q : Reader Object) (s t : State)
      → read_call P r s ≡ (q, t)
      → run P (reads ∷ turns) (at w r s) ≡ run P turns (at w q t)
  unfolding run turn
  run_reads turns w r q s t e = ap (λ c. run P turns (at w c.0 c.1)) e

  pub run-append :
      (before later : List Turn) (z : Sys P)
      → run P (before ++ later) z ≡ run P later (run P before z)
  unfolding run
  run-append [] later z = refl
  run-append (t ∷ before) later z = run-append before later (turn P t z)

  -- What the calls do where nothing fails.

  pub write_opens :
      (turns : List Turn) (r : Reader Object) (s t : State) (o : Object)
      → P.shm_open true s ≡ some (o, t)
      → run P (writes ∷ turns) (at to_open r s) ≡ run P turns (at (has_opened o) r t)
  unfolding write_call
  write_opens turns r s t o e =
      run_writes turns to_open (has_opened o) r s t (rw (e, write_call) refl)

  pub write_sizes :
      (turns : List Turn) (r : Reader Object) (s t : State) (o : Object)
      → P.ftruncate shmsize o s ≡ some t
      → run P (writes ∷ turns) (at (has_opened o) r s) ≡ run P turns (at (has_sized o) r t)
  unfolding write_call
  write_sizes turns r s t o e =
      run_writes turns (has_opened o) (has_sized o) r s t (rw (e, write_call) refl)

  pub write_maps :
      (turns : List Turn) (r : Reader Object) (s t : State) (o : Object)
      → P.mmap shmsize o s ≡ some t
      → run P (writes ∷ turns) (at (has_sized o) r s) ≡ run P turns (at (has_mapped o) r t)
  unfolding write_call
  write_maps turns r s t o e =
      run_writes turns (has_sized o) (has_mapped o) r s t (rw (e, write_call) refl)

  pub write_stores :
      (turns : List Turn) (r : Reader Object) (s : State) (o : Object) (b : ℕ) (rest : List ℕ)
      → contents o s ≡ b ∷ rest
      → run P (writes ∷ turns) (at (has_mapped o) r s)
        ≡ run P turns (at has_stored r (P.store o 18 s))
  unfolding write_call
  write_stores turns r s o b rest e =
      run_writes turns (has_mapped o) has_stored r s (P.store o 18 s) (rw (e, write_call) refl)

  pub write_unlinks :
      (turns : List Turn) (r : Reader Object) (s : State)
      → run P (writes ∷ turns) (at has_stored r s)
        ≡ run P turns (at has_unlinked r (P.shm_unlink s))
  unfolding write_call
  write_unlinks turns r s = run_writes turns has_stored has_unlinked r s (P.shm_unlink s) refl

  pub write_is_done :
      (turns : List Turn) (r : Reader Object) (s : State)
      → run P (writes ∷ turns) (at has_unlinked r s) ≡ run P turns (at has_unlinked r s)
  unfolding write_call
  write_is_done turns r s = run_writes turns has_unlinked has_unlinked r s s refl

  pub read_opens :
      (turns : List Turn) (w : Writer Object) (s t : State) (o : Object)
      → P.shm_open false s ≡ some (o, t)
      → run P (reads ∷ turns) (at w at_start s) ≡ run P turns (at w (with_object o) t)
  unfolding read_call
  read_opens turns w s t o e =
      run_reads turns w at_start (with_object o) s t (rw (e, read_call) refl)

  pub read_maps :
      (turns : List Turn) (w : Writer Object) (s t : State) (o : Object)
      → P.mmap shmsize o s ≡ some t
      → run P (reads ∷ turns) (at w (with_object o) s) ≡ run P turns (at w (with_mapping o) t)
  unfolding read_call
  read_maps turns w s t o e =
      run_reads turns w (with_object o) (with_mapping o) s t (rw (e, read_call) refl)

  pub read_sizes :
      (turns : List Turn) (w : Writer Object) (s t : State) (o : Object)
      → P.ftruncate shmsize o s ≡ some t
      → run P (reads ∷ turns) (at w (with_mapping o) s) ≡ run P turns (at w (polling o) t)
  unfolding read_call
  read_sizes turns w s t o e =
      run_reads turns w (with_mapping o) (polling o) s t (rw (e, read_call) refl)

  pub read_polls :
      (turns : List Turn) (w : Writer Object) (s : State) (o : Object) (rest : List ℕ)
      → contents o s ≡ 0 ∷ rest
      → run P (reads ∷ turns) (at w (polling o) s) ≡ run P turns (at w (polling o) s)
  unfolding read_call
  read_polls turns w s o rest e =
      run_reads turns w (polling o) (polling o) s s (rw (e, read_call) refl)

  pub read_sees :
      (turns : List Turn) (w : Writer Object) (s : State) (o : Object) (rest : List ℕ)
      → contents o s ≡ 18 ∷ rest
      → run P (reads ∷ turns) (at w (polling o) s) ≡ run P turns (at w (seen o) s)
  unfolding read_call
  read_sees turns w s o rest e = run_reads turns w (polling o) (seen o) s s (rw (e, read_call) refl)

  pub read_prints :
      (turns : List Turn) (w : Writer Object) (s : State) (o : Object) (v : ℕ) (rest : List ℕ)
      → contents o s ≡ v ∷ rest
      → run P (reads ∷ turns) (at w (seen o) s) ≡ run P turns (at w (printed v) s)
  unfolding read_call
  read_prints turns w s o v rest e =
      run_reads turns w (seen o) (printed v) s s (rw (e, read_call) refl)

  pub read_is_killed :
      (turns : List Turn) (w : Writer Object) (s : State) (o : Object)
      → contents o s ≡ []
      → run P (reads ∷ turns) (at w (polling o) s) ≡ run P turns (at w killed s)
  unfolding read_call
  read_is_killed turns w s o e = run_reads turns w (polling o) killed s s (rw (e, read_call) refl)

  pub read_ends :
      (turns : List Turn) (w : Writer Object) (s : State) (v : ℕ)
      → run P (reads ∷ turns) (at w (printed v) s) ≡ run P turns (at w (ended v) (P.shm_unlink s))
  unfolding read_call
  read_ends turns w s v = run_reads turns w (printed v) (ended v) s (P.shm_unlink s) refl
