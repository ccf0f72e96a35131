-- ===== src/SharedMemory/Sample/Phase.antt =====
-- Before the store and after it: what one call of either sample does.
use linuxapp.Common.{
  ℕ, ◌==◌, Bool, true, false, List, [], ◌∷◌, ◌≡◌, ◌⊎◌, refl, ap, ◌∙◌, inl, inr, Bool-cases,
  Option-cases, ==_iff,
}
use linuxapp.SharedMemory.Named.{Shm, IsContained}
use linuxapp.SharedMemory.Sample.{
  shmsize, Writer, to_open, has_opened, has_sized, has_mapped, has_stored, has_unlinked, is_failed,
  is_killed, Reader, at_start, with_object, with_mapping, polling, seen, printed, ended, failed,
  killed, write_call, read_call,
}
use linuxapp.SharedMemory.Sample.Blank.{IsBlank, open-IsBlank, mmap-IsBlank, ftruncate-IsBlank}

-- The writer has made its store.
abbrev pub is_stored : {O : Type 0} → Writer O → Bool
is_stored has_stored = true
is_stored has_unlinked = true
is_stored _ = false

-- The reader has not seen the 18.
abbrev pub is_waiting : {O : Type 0} → Reader O → Bool
is_waiting (seen o) = false
is_waiting (printed v) = false
is_waiting (ended v) = false
is_waiting _ = true

List-cases : (xs : List ℕ) → (xs ≡ []) ⊎ ((b : ℕ) × (rest : List ℕ) × (xs ≡ b ∷ rest))
List-cases [] = inl refl
List-cases (b ∷ rest) = inr (b, rest, refl)

module _ (P : Shm) where
  open P use {State, Object, contents}

  -- What the reader knows once the store is made.
  unfoldable pub Knows : Reader Object → State → Type 0
  Knows (seen o) s = (rest : List ℕ) × (contents o s ≡ 18 ∷ rest)
  Knows (printed v) s = v ≡ 18
  Knows (ended v) s = v ≡ 18
  Knows _ s = Unit

  -- Before the store every object is blank; after it the reader has seen nothing but 18.
  pub data Phase (w : Writer Object) (r : Reader Object) (s : State) : Type 0 where
    before : is_stored w ≡ false → is_waiting r ≡ true → IsBlank P s → Phase w r s
    after : is_stored w ≡ true → Knows r s → Phase w r s

  waiting-Knows : (r : Reader Object) (s : State) → is_waiting r ≡ true → Knows r s
  unfolding Knows
  waiting-Knows at_start s h = tt
  waiting-Knows (with_object o) s h = tt
  waiting-Knows (with_mapping o) s h = tt
  waiting-Knows (polling o) s h = tt
  waiting-Knows (seen o) s h = cc
  waiting-Knows (printed v) s h = cc
  waiting-Knows (ended v) s h = cc
  waiting-Knows failed s h = tt
  waiting-Knows killed s h = tt

module _ (P : Shm) (contained : IsContained P) where
  open P use {State, Object, contents}

  pub write_before :
      (w : Writer Object) (r : Reader Object) (s : State)
      → is_stored w ≡ false
      → is_waiting r ≡ true
      → IsBlank P s
      → Phase P (write_call P w s).0 r (write_call P w s).1
  unfolding write_call
  write_before to_open r s b h blank = elim (Option-cases (P.shm_open true s)) [
    | inl e ↦ rw (e, write_call) (before refl h blank)
    | inr ((o, t), e) ↦
        rw (e, write_call) (before refl h (open-IsBlank P contained true s t o e blank))
  ]
  write_before (has_opened o) r s b h blank = elim (Option-cases (P.ftruncate shmsize o s)) [
    | inl e ↦ rw (e, write_call) (before refl h blank)
    | inr (t, e) ↦
        rw (e, write_call) (before refl h (ftruncate-IsBlank P contained shmsize o s t e blank))
  ]
  write_before (has_sized o) r s b h blank = elim (Option-cases (P.mmap shmsize o s)) [
    | inl e ↦ rw (e, write_call) (before refl h blank)
    | inr (t, e) ↦
        rw (e, write_call) (before refl h (mmap-IsBlank P contained shmsize o s t e blank))
  ]
  write_before (has_mapped o) r s b h blank = elim (List-cases (contents o s)) [
    | inl e ↦ rw (e, write_call) (before refl h blank)
    | inr (c, rest, e) ↦ rw (e, write_call) (after refl (waiting-Knows P r _ h))
  ]
  write_before has_stored r s b h blank = cc
  write_before has_unlinked r s b h blank = cc
  write_before is_failed r s b h blank = before refl h blank
  write_before is_killed r s b h blank = before refl h blank

  not_18 : (b : ℕ) → b ≡ 0 → (b == 18) ≡ false
  not_18 b h = rw h refl

  pub read_before :
      (w : Writer Object) (r : Reader Object) (s : State)
      → is_stored w ≡ false
      → is_waiting r ≡ true
      → IsBlank P s
      → Phase P w (read_call P r s).0 (read_call P r s).1
  unfolding read_call
  read_before w at_start s b h blank = elim (Option-cases (P.shm_open false s)) [
    | inl e ↦ rw (e, read_call) (before b refl blank)
    | inr ((o, t), e) ↦
        rw (e, read_call) (before b refl (open-IsBlank P contained false s t o e blank))
  ]
  read_before w (with_object o) s b h blank = elim (Option-cases (P.mmap shmsize o s)) [
    | inl e ↦ rw (e, read_call) (before b refl blank)
    | inr (t, e) ↦
        rw (e, read_call) (before b refl (mmap-IsBlank P contained shmsize o s t e blank))
  ]
  read_before w (with_mapping o) s b h blank = elim (Option-cases (P.ftruncate shmsize o s)) [
    | inl e ↦ rw (e, read_call) (before b refl blank)
    | inr (t, e) ↦
        rw (e, read_call) (before b refl (ftruncate-IsBlank P contained shmsize o s t e blank))
  ]
  read_before w (polling o) s b h blank = elim (List-cases (contents o s)) [
    | inl e ↦ rw (e, read_call) (before b refl blank)
    | inr (c, rest, e) ↦
        let zero_byte : c ≡ 0 = (rw e at (blank o)).0 in
        rw (e, read_call) (rw (not_18 c zero_byte) (before b refl blank))
  ]
  read_before w (seen o) s b h blank = cc
  read_before w (printed v) s b h blank = cc
  read_before w (ended v) s b h blank = cc
  read_before w failed s b h blank = before b refl blank
  read_before w killed s b h blank = before b refl blank

  unlink-Knows : (r : Reader Object) (s : State) → Knows P r s → Knows P r (P.shm_unlink s)
  unfolding Knows
  unlink-Knows (seen o) s (rest, e) = (rest, contained.unlink_any s o ∙ e)
  unlink-Knows at_start s k = tt
  unlink-Knows (with_object o) s k = tt
  unlink-Knows (with_mapping o) s k = tt
  unlink-Knows (polling o) s k = tt
  unlink-Knows (printed v) s k = k
  unlink-Knows (ended v) s k = k
  unlink-Knows failed s k = tt
  unlink-Knows killed s k = tt

  pub write_after :
      (w : Writer Object) (r : Reader Object) (s : State)
      → is_stored w ≡ true
      → Knows P r s
      → Phase P (write_call P w s).0 r (write_call P w s).1
  unfolding write_call
  write_after to_open r s b k = cc
  write_after (has_opened o) r s b k = cc
  write_after (has_sized o) r s b k = cc
  write_after (has_mapped o) r s b k = cc
  write_after has_stored r s b k = after refl (unlink-Knows r s k)
  write_after has_unlinked r s b k = after refl k
  write_after is_failed r s b k = cc
  write_after is_killed r s b k = cc

  pub read_after :
      (w : Writer Object) (r : Reader Object) (s : State)
      → is_stored w ≡ true
      → Knows P r s
      → Phase P w (read_call P r s).0 (read_call P r s).1
  unfolding read_call Knows
  read_after w at_start s b k = elim (Option-cases (P.shm_open false s)) [
    | inl e ↦ rw (e, read_call) (after b tt)
    | inr ((o, t), e) ↦ rw (e, read_call) (after b tt)
  ]
  read_after w (with_object o) s b k = elim (Option-cases (P.mmap shmsize o s)) [
    | inl e ↦ rw (e, read_call) (after b tt)
    | inr (t, e) ↦ rw (e, read_call) (after b tt)
  ]
  read_after w (with_mapping o) s b k = elim (Option-cases (P.ftruncate shmsize o s)) [
    | inl e ↦ rw (e, read_call) (after b tt)
    | inr (t, e) ↦ rw (e, read_call) (after b tt)
  ]
  read_after w (polling o) s b k = elim (List-cases (contents o s)) [
    | inl e ↦ rw (e, read_call) (after b tt)
    | inr (c, rest, e) ↦ elim (Bool-cases (c == 18)) [
      | inl it ↦
          rw (e, read_call) (rw it (after b (rest, e ∙ ap (λ x. x ∷ rest) ((==_iff c 18).0 it))))
      | inr other ↦ rw (e, read_call) (rw other (after b tt))
    ]
  ]
  read_after w (seen o) s b (rest, e) = rw (e, read_call) (after b refl)
  read_after w (printed v) s b k = after b k
  read_after w (ended v) s b k = after b k
  read_after w failed s b k = after b tt
  read_after w killed s b k = after b tt
