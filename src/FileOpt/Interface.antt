-- ===== src/FileOpt/Interface.antt =====
-- What the program assumes of the calls on one file, and a file system that meets it.
use linuxapp.Common.{ℕ, Option, none, some, List, [], ◌++◌, length, take, drop, ◌≡◌, ◌≢◌, ◌⊎◌}
use linuxapp.Common.Int.{ℤ, pos}

-- O_WRONLY|O_CREAT, and O_RDONLY.
pub data Mode : Type 0 where
  writing reading : Mode

-- `contents` is the file's bytes where it exists, `offset` the place of an open descriptor.
pub record Files : Type 1 where
  pub State : Type 0
  pub contents : State → Option (List ℕ)
  pub offset : State → ℤ → Option ℕ
  pub open_file : Mode → State → ℤ × State
  pub write : ℤ → List ℕ → State → ℤ × State
  pub fsync : ℤ → State → ℤ × State
  pub close : ℤ → State → ℤ × State
  pub read : ℤ → ℕ → State → ℤ × List ℕ × State

-- The bytes of a file that is created where it is missing.
abbrev pub or_empty : Option (List ℕ) → List ℕ
or_empty none = []
or_empty (some bs) = bs

-- No call on an open descriptor fails, and each does what its manual says.
pub record IsWorking (F : Files) : Type 0 where
  pub opened :
      (mode : Mode) (s : F.State)
      → (mode ≡ writing) ⊎ (F.contents s ≢ none)
      → (n : ℕ) × (t : F.State) × (F.open_file mode s ≡ (pos n, t))
        × (F.offset s (pos n) ≡ none)
        × (F.offset t (pos n) ≡ some 0)
        × ((i : ℤ) → i ≢ pos n → F.offset t i ≡ F.offset s i)
        × (F.contents t ≡ some (or_empty (F.contents s)))
  pub written :
      (n : ℕ) (bs c : List ℕ) (s : F.State)
      → F.contents s ≡ some c
      → F.offset s (pos n) ≡ some 0
      → (t : F.State) × (F.write (pos n) bs s ≡ (pos (length bs), t))
        × (F.offset t (pos n) ≡ some (length bs))
        × ((i : ℤ) → i ≢ pos n → F.offset t i ≡ F.offset s i)
        × (F.contents t ≡ some (bs ++ drop (length bs) c))
  pub synced :
      (n k : ℕ) (s : F.State)
      → F.offset s (pos n) ≡ some k
      → (t : F.State) × (F.fsync (pos n) s ≡ (pos 0, t))
        × ((i : ℤ) → F.offset t i ≡ F.offset s i)
        × (F.contents t ≡ F.contents s)
  pub closed :
      (fd : ℤ) (s : F.State)
      → (ret : ℤ) × (t : F.State) × (F.close fd s ≡ (ret, t))
        × (F.offset t fd ≡ none)
        × ((i : ℤ) → i ≢ fd → F.offset t i ≡ F.offset s i)
        × (F.contents t ≡ F.contents s)
  pub was_read :
      (n k : ℕ) (c : List ℕ) (s : F.State)
      → F.contents s ≡ some c
      → F.offset s (pos n) ≡ some 0
      → (t : F.State) × (F.read (pos n) k s ≡ (pos (length (take k c)), take k c, t))
        × ((i : ℤ) → i ≢ pos n → F.offset t i ≡ F.offset s i)
        × (F.contents t ≡ F.contents s)
