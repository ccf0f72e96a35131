-- ===== src/SharedMemory/Named.antt =====
-- What the samples of iMX287Learn/sharememory/doc assume of shared memory under a name: an object
-- that outlives its name while a process has it. A system that meets it stands in Objects.
use linuxapp.Common.{
  ℕ, ◌-◌, Bool, if◌then◌else◌, Option, none, some, List, [], ◌∷◌, ◌++◌, length, take, ◌≡◌, ◌⊎◌,
}
use linuxapp.Common.CString.{zeros}

-- `none` is an error that the call reports. shm_open creates the object where the name has none,
-- and empties it if it is told to (O_TRUNC); `store` writes the first byte of a mapped object.
pub record Shm : Type 1 where
  pub State : Type 0
  pub Object : Type 0
  pub named : State → Option Object
  pub contents : Object → State → List ℕ
  pub shm_open : Bool → State → Option (Object × State)
  pub mmap : ℕ → Object → State → Option State
  pub ftruncate : ℕ → Object → State → Option State
  pub store : Object → ℕ → State → State
  pub shm_unlink : State → State

-- A list of n bytes: cut, or filled up with zeros.
unfoldable pub resized : ℕ → List ℕ → List ℕ
resized n bytes = take n bytes ++ zeros (n - length bytes)

-- No call reports an error, and each does to its object what its manual says.
pub record IsWorking (P : Shm) : Type 0 where
  pub opened :
      (truncating : Bool) (s : P.State) (o : P.Object)
      → P.named s ≡ some o
      → (t : P.State) × (P.shm_open truncating s ≡ some (o, t))
        × (P.named t ≡ some o)
        × (P.contents o t ≡ (if truncating then [] else P.contents o s))
  pub created :
      (truncating : Bool) (s : P.State)
      → P.named s ≡ none
      → (o : P.Object) × (t : P.State) × (P.shm_open truncating s ≡ some (o, t))
        × (P.named t ≡ some o)
        × (P.contents o t ≡ [])
  pub mapped :
      (n : ℕ) (o : P.Object) (s : P.State)
      → (t : P.State) × (P.mmap n o s ≡ some t)
        × (P.named t ≡ P.named s)
        × (P.contents o t ≡ P.contents o s)
  pub truncated :
      (n : ℕ) (o : P.Object) (s : P.State)
      → (t : P.State) × (P.ftruncate n o s ≡ some t)
        × (P.named t ≡ P.named s)
        × (P.contents o t ≡ resized n (P.contents o s))
  pub stored :
      (o : P.Object) (s : P.State) (v b : ℕ) (rest : List ℕ)
      → P.contents o s ≡ b ∷ rest
      → (P.named (P.store o v s) ≡ P.named s) × (P.contents o (P.store o v s) ≡ v ∷ rest)
  pub unlinked :
      (s : P.State) (o : P.Object)
      → (P.named (P.shm_unlink s) ≡ none) × (P.contents o (P.shm_unlink s) ≡ P.contents o s)

-- What the calls can do to any object, the caller's or another.
pub record IsContained (P : Shm) : Type 0 where
  pub open_any :
      (truncating : Bool) (s t : P.State) (o p : P.Object)
      → P.shm_open truncating s ≡ some (o, t)
      → (P.contents p t ≡ P.contents p s) ⊎ (P.contents p t ≡ [])
  pub mmap_any :
      (n : ℕ) (o p : P.Object) (s t : P.State)
      → P.mmap n o s ≡ some t
      → P.contents p t ≡ P.contents p s
  pub ftruncate_any :
      (n : ℕ) (o p : P.Object) (s t : P.State)
      → P.ftruncate n o s ≡ some t
      → (P.contents p t ≡ P.contents p s) ⊎ (P.contents p t ≡ resized n (P.contents p s))
  pub unlink_any : (s : P.State) (p : P.Object) → P.contents p (P.shm_unlink s) ≡ P.contents p s
