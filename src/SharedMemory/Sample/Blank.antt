-- ===== src/SharedMemory/Sample/Blank.antt =====
-- Objects that hold zeros only, and what the calls make of them.
use linuxapp.Common.{
  ℕ, zero, suc, ◌-◌, Bool, some, List, [], ◌∷◌, length, take, All, All-append, ◌≡◌, refl, inl, inr,
}
use linuxapp.Common.CString.{zeros}
use linuxapp.SharedMemory.Named.{Shm, IsContained, resized}

abbrev pub AllZero : List ℕ → Type 0
AllZero = All (λ b. b ≡ 0)

zeros-AllZero : (n : ℕ) → AllZero (zeros n)
zeros-AllZero zero = tt
zeros-AllZero (suc n) = (refl, zeros-AllZero n)

take-AllZero : (n : ℕ) (bytes : List ℕ) → AllZero bytes → AllZero (take n bytes)
take-AllZero zero bytes h = tt
take-AllZero (suc n) [] h = tt
take-AllZero (suc n) (b ∷ bytes) (h, hs) = (h, take-AllZero n bytes hs)

resized-AllZero : (n : ℕ) (bytes : List ℕ) → AllZero bytes → AllZero (resized n bytes)
unfolding resized
resized-AllZero n bytes h =
    All-append (λ b. b ≡ 0) (take n bytes) (zeros (n - length bytes)) (take-AllZero n bytes h)
      (zeros-AllZero (n - length bytes))

abbrev pub IsBlank : (P : Shm) → P.State → Type 0
IsBlank P s = (p : P.Object) → AllZero (P.contents p s)

module _ (P : Shm) (contained : IsContained P) where
  open P use {State, Object, contents}

  pub open-IsBlank :
      (truncating : Bool) (s t : State) (o : Object)
      → P.shm_open truncating s ≡ some (o, t)
      → IsBlank P s
      → IsBlank P t
  open-IsBlank truncating s t o e blank p = elim (contained.open_any truncating s t o p e) [
    | inl same ↦ rw same (blank p)
    | inr empty ↦ rw empty tt
  ]

  pub mmap-IsBlank :
      (n : ℕ) (o : Object) (s t : State) → P.mmap n o s ≡ some t → IsBlank P s → IsBlank P t
  mmap-IsBlank n o s t e blank p = rw (contained.mmap_any n o p s t e) (blank p)

  pub ftruncate-IsBlank :
      (n : ℕ) (o : Object) (s t : State) → P.ftruncate n o s ≡ some t → IsBlank P s → IsBlank P t
  ftruncate-IsBlank n o s t e blank p = elim (contained.ftruncate_any n o p s t e) [
    | inl same ↦ rw same (blank p)
    | inr cut ↦ rw cut (resized-AllZero n (contents p s) (blank p))
  ]
