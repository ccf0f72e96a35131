-- ===== src/SharedMemory/Sample/Orders.antt =====
-- What becomes of the reading sample, by when the writing one makes its calls.
use linuxapp.Common.{
  ℕ, zero, suc, true, false, some, none, List, [], ◌∷◌, ◌++◌, replicate, ◌≡◌, refl, ap, ◌∙◌,
  Option-cases, inl, inr,
}
use linuxapp.Common.CString.{zeros}
use linuxapp.SharedMemory.Named.{Shm, IsWorking, resized}
use linuxapp.SharedMemory.Sample.{
  shmsize, Turn, writes, reads, Writer, to_open, has_unlinked, has_opened, Reader, at_start,
  polling, ended, killed, run, samples_start,
}
use linuxapp.SharedMemory.Sample.Calls.{
  at, run-append, write_opens, write_sizes, write_maps, write_stores, write_unlinks, read_opens,
  read_maps, read_sizes, read_polls, read_sees, read_prints, read_is_killed, read_ends,
}
use linuxapp.SharedMemory.Sample.Late.{IsLate, run-IsLate, looks_late, is_looking}

-- All calls of the writer; the reader's up to its loop, and some of its looks.
abbrev pub whole_write : List Turn
whole_write = replicate 5 writes

abbrev pub reader_waits : ℕ → List Turn
reader_waits looks = reads ∷ reads ∷ reads ∷ replicate looks reads

module _ (P : Shm) (works : IsWorking P) where
  open P use {State, Object, named, contents}

  -- The writer, once its object is open and empty.
  opened_write_lem :
      (r : Reader Object) (s s1 : State) (o : Object)
      → P.shm_open true s ≡ some (o, s1)
      → contents o s1 ≡ []
      → (t : State) × (run P whole_write (at P to_open r s) ≡ at P has_unlinked r t)
        × (named t ≡ none)
        × (contents o t ≡ 18 ∷ zeros 9)
  unfolding run resized
  opened_write_lem r s s1 o e1 c1 =
      let (s2, e2, n2, c2) = works.truncated shmsize o s1 in
      let (s3, e3, n3, c3) = works.mapped shmsize o s2 in
      let sized : contents o s3 ≡ zeros 10 = c3 ∙ c2 ∙ ap (resized shmsize) c1 in
      let (n4, c4) = works.stored o s3 18 0 (zeros 9) sized in
      let (n5, c5) = works.unlinked (P.store o 18 s3) o in
      (
        P.shm_unlink (P.store o 18 s3),
        write_opens P (replicate 4 writes) r s s1 o e1
            ∙ write_sizes P (replicate 3 writes) r s1 s2 o e2
            ∙ write_maps P (replicate 2 writes) r s2 s3 o e3
            ∙ write_stores P (writes ∷ []) r s3 o 0 (zeros 9) sized
            ∙ write_unlinks P [] r (P.store o 18 s3),
        n5,
        c5 ∙ c4,
      )

  -- The writer's open gives an empty object.
  opened :
      (s : State)
      → (t : State) × (o : Object) × (P.shm_open true s ≡ some (o, t)) × (contents o t ≡ [])
  opened s = elim (Option-cases (named s)) [
    | inl e ↦ let (o, t, made, n, c) = works.created true s e in (t, o, made, c)
    | inr (o, e) ↦ let (t, made, n, c) = works.opened true s o e in (t, o, made, c)
  ]

  -- The reader waits in its loop, on an object of zeros that stands under the name.
  reader_looks :
      (looks : ℕ) (w : Writer Object) (s : State) (o : Object)
      → contents o s ≡ zeros 10
      → run P (replicate looks reads) (at P w (polling o) s) ≡ at P w (polling o) s
  unfolding run
  reader_looks zero w s o blank = refl
  reader_looks (suc looks) w s o blank =
      read_polls P (replicate looks reads) w s o (zeros 9) blank ∙ reader_looks looks w s o blank

  reader_waits_lem :
      (looks : ℕ) (w : Writer Object) (s : State)
      → named s ≡ none
      → (o : Object) × (t : State) × (run P (reader_waits looks) (at P w at_start s)
          ≡ at P w (polling o) t)
        × (named t ≡ some o)
        × (contents o t ≡ zeros 10)
  unfolding resized
  reader_waits_lem looks w s free =
      let (o, s1, e1, n1, c1) = works.created false s free in
      let (s2, e2, n2, c2) = works.mapped shmsize o s1 in
      let (s3, e3, n3, c3) = works.truncated shmsize o s2 in
      let sized : contents o s3 ≡ zeros 10 = c3 ∙ ap (resized shmsize) (c2 ∙ c1) in
      (
        o,
        s3,
        read_opens P (reads ∷ reads ∷ replicate looks reads) w s s1 o e1
            ∙ read_maps P (reads ∷ replicate looks reads) w s1 s2 o e2
            ∙ read_sizes P (replicate looks reads) w s2 s3 o e3
            ∙ reader_looks looks w s3 o sized,
        n3 ∙ n2 ∙ n1,
        sized,
      )

  -- The writer's calls first.
  late_reader_lem :
      (turns : List Turn) (s : State)
      → (q : Reader Object) × (t : State) × (run P (whole_write ++ turns) (samples_start P s)
          ≡ at P has_unlinked q t)
        × (is_looking q ≡ true)
  unfolding IsLate
  late_reader_lem turns s =
      let (s1, o, e, c) = opened s in
      let (s2, e2, n2, c2) = opened_write_lem at_start s s1 o e c in
      let (q, t, e3, late) = run-IsLate P works turns at_start s2 n2 in
      (
        q,
        t,
        run-append P whole_write turns (samples_start P s) ∙ ap (run P turns) e2 ∙ e3,
        looks_late P q t late,
      )

  -- The reader's first.
  early_reader_lem :
      (looks : ℕ) (s : State)
      → named s ≡ none
      → ((t : State) × (run P
              (reader_waits looks ++ (whole_write ++ replicate 3 reads))
              (samples_start P s)
            ≡ at P has_unlinked (ended 18) t))
        × ((o : Object) × (t : State) × (run P
                (reader_waits looks ++ writes ∷ reads ∷ [])
                (samples_start P s)
              ≡ at P (has_opened o) killed t))
  unfolding run
  early_reader_lem looks s free =
      let (o, s1, e1, n1, c1) = reader_waits_lem looks to_open s free in
      let (s2, e2, n2, c2) = works.opened true s1 o n1 in
      let (s3, e3, n3, c3) = opened_write_lem (polling o) s1 s2 o e2 c2 in
      (
        (
          P.shm_unlink s3,
          run-append P (reader_waits looks) (whole_write ++ replicate 3 reads) (samples_start P s)
              ∙ ap (run P (whole_write ++ replicate 3 reads)) e1
              ∙ run-append P whole_write (replicate 3 reads) (at P to_open (polling o) s1)
              ∙ ap (run P (replicate 3 reads)) e3
              ∙ read_sees P (reads ∷ reads ∷ []) has_unlinked s3 o (zeros 9) c3
              ∙ read_prints P (reads ∷ []) has_unlinked s3 o 18 (zeros 9) c3
              ∙ read_ends P [] has_unlinked s3 18,
        ),
        (
          o,
          s2,
          run-append P (reader_waits looks) (writes ∷ reads ∷ []) (samples_start P s)
              ∙ ap (run P (writes ∷ reads ∷ [])) e1
              ∙ write_opens P (reads ∷ []) (polling o) s1 s2 o e2
              ∙ read_is_killed P [] (has_opened o) s2 o c2,
        ),
      )

  -- If no call of the two samples fails and the name is free, the reading sample that comes to its
  -- loop and looks any number of times before the first call of the writing one prints 18 if all
  -- calls of the writing one come before its next look, and is killed if only the first comes,
  -- which empties the object. After all calls of the writing one it never prints, however it goes
  -- on.
  pub orders_lem :
      (looks : ℕ) (later : List Turn) (s : State)
      → named s ≡ none
      → ((t : State) × (run P
              (reader_waits looks ++ (whole_write ++ replicate 3 reads))
              (samples_start P s)
            ≡ at P has_unlinked (ended 18) t))
        × ((o : Object) × (t : State) × (run P
                (reader_waits looks ++ writes ∷ reads ∷ [])
                (samples_start P s)
              ≡ at P (has_opened o) killed t))
        × ((q : Reader Object) × (t : State) × (run P (whole_write ++ later) (samples_start P s)
              ≡ at P has_unlinked q t)
            × (is_looking q ≡ true))
  orders_lem looks later s free =
      let (printing, killing) = early_reader_lem looks s free in
      (printing, killing, late_reader_lem later s)
