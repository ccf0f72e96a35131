-- ===== src/SharedMemory/Interface.antt =====
-- What the programs assume of a named block of shared memory, and a block that meets it.
use linuxapp.Common.{
  ℕ, ◌-◌, ◌≤◌, Bool, if◌then◌else◌, Option, some, List, [], ◌++◌, length, take, drop, ◌≡◌, refl,
}
use linuxapp.Common.CString.{zeros}

-- `none` is an error that the call reports. shm_open creates the block where it is missing, and
-- empties it if it is told to (O_TRUNC); `store` copies bytes to the start of the mapped block.
pub record Block : Type 1 where
  pub State : Type 0
  pub contents : State → List ℕ
  pub shm_open : Bool → State → Option State
  pub ftruncate : ℕ → State → Option State
  pub mmap : ℕ → State → Option State
  pub store : List ℕ → State → State

-- No call reports an error, and each does to the bytes what its manual says.
pub record IsWorking (P : Block) : Type 0 where
  pub opened :
      (truncating : Bool) (s : P.State)
      → (t : P.State) × (P.shm_open truncating s ≡ some t)
        × (P.contents t ≡ (if truncating then [] else P.contents s))
  pub truncated :
      (n : ℕ) (s : P.State)
      → (t : P.State) × (P.ftruncate n s ≡ some t)
        × (P.contents t ≡ take n (P.contents s) ++ zeros (n - length (P.contents s)))
  pub mapped :
      (n : ℕ) (s : P.State) → (t : P.State) × (P.mmap n s ≡ some t) × (P.contents t ≡ P.contents s)
  pub stored :
      (bs : List ℕ) (s : P.State)
      → length bs ≤ length (P.contents s)
      → P.contents (P.store bs s) ≡ bs ++ drop (length bs) (P.contents s)

-- The block as a list of its bytes.
abbrev pub bytes : Block
bytes = record {
  State = List ℕ;
  contents = λ s. s;
  shm_open = λ truncating s. some (if truncating then [] else s);
  ftruncate = λ n s. some (take n s ++ zeros (n - length s));
  mmap = λ n s. some s;
  store = λ bs s. bs ++ drop (length bs) s;
}

pub bytes-IsWorking : IsWorking bytes
bytes-IsWorking = record {
  opened = λ truncating s. (if truncating then [] else s, refl, refl);
  truncated = λ n s. (take n s ++ zeros (n - length s), refl, refl);
  mapped = λ n s. (s, refl, refl);
  stored = λ bs s h. refl;
}
