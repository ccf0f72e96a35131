-- ===== src/SharedMemory/Sample/Late.antt =====
-- The reading sample after all calls of the writing one.
use linuxapp.Common.{Bool, true, false, none, List, [], ◌∷◌, ◌≡◌, refl, ap, ◌∙◌}
use linuxapp.Common.CString.{zeros}
use linuxapp.SharedMemory.Named.{Shm, IsWorking, resized}
use linuxapp.SharedMemory.Sample.{
  shmsize, Turn, writes, reads, has_unlinked, Reader, at_start, with_object, with_mapping, polling,
  run,
}
use linuxapp.SharedMemory.Sample.Calls.{
  at, write_is_done, read_opens, read_maps, read_sizes, read_polls,
}

-- The reader is at its calls before the loop or in it.
abbrev pub is_looking : {O : Type 0} → Reader O → Bool
is_looking at_start = true
is_looking (with_object o) = true
is_looking (with_mapping o) = true
is_looking (polling o) = true
is_looking _ = false

module _ (P : Shm) where
  open P use {State, Object, named, contents}

  -- The reader that comes too late: no name yet, an empty object, or a loop on zeros.
  unfoldable pub IsLate : Reader Object → State → Type 0
  IsLate at_start s = named s ≡ none
  IsLate (with_object o) s = contents o s ≡ []
  IsLate (with_mapping o) s = contents o s ≡ []
  IsLate (polling o) s = contents o s ≡ zeros 10
  IsLate _ s = ⊥

  pub looks_late : (r : Reader Object) (s : State) → IsLate r s → is_looking r ≡ true
  unfolding IsLate
  looks_late at_start s late = refl
  looks_late (with_object o) s late = refl
  looks_late (with_mapping o) s late = refl
  looks_late (polling o) s late = refl
  looks_late _ s late = absurd late

module _ (P : Shm) (works : IsWorking P) where
  open P use {State, Object, contents}

  read_call-IsLate :
      (turns : List Turn) (r : Reader Object) (s : State)
      → IsLate P r s
      → (q : Reader Object) × (t : State) × (run P (reads ∷ turns) (at P has_unlinked r s)
          ≡ run P turns (at P has_unlinked q t))
        × IsLate P q t
  unfolding IsLate resized
  read_call-IsLate turns at_start s late =
      let (o, t, e, n, c) = works.created false s late in
      (with_object o, t, read_opens P turns has_unlinked s t o e, c)
  read_call-IsLate turns (with_object o) s late =
      let (t, e, n, c) = works.mapped shmsize o s in
      (with_mapping o, t, read_maps P turns has_unlinked s t o e, c ∙ late)
  read_call-IsLate turns (with_mapping o) s late =
      let (t, e, n, c) = works.truncated shmsize o s in
      (polling o, t, read_sizes P turns has_unlinked s t o e, c ∙ ap (resized shmsize) late)
  read_call-IsLate turns (polling o) s late =
      (polling o, s, read_polls P turns has_unlinked s o (zeros 9) late, late)
  read_call-IsLate turns _ s late = absurd late

  pub run-IsLate :
      (turns : List Turn) (r : Reader Object) (s : State)
      → IsLate P r s
      → (q : Reader Object) × (t : State) × (run P turns (at P has_unlinked r s)
          ≡ at P has_unlinked q t)
        × IsLate P q t
  unfolding run
  run-IsLate [] r s late = (r, s, refl, late)
  run-IsLate (writes ∷ turns) r s late =
      let (q, t, e, end) = run-IsLate turns r s late in (q, t, write_is_done P turns r s ∙ e, end)
  run-IsLate (reads ∷ turns) r s late =
      let (p, u, e1, next) = read_call-IsLate turns r s late in
      let (q, t, e2, end) = run-IsLate turns p u next in (q, t, e1 ∙ e2, end)
