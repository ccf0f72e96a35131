-- ===== src/FileOpt/Disk.antt =====
-- A file system of one file, with a table of descriptors, that meets what the program assumes.
use linuxapp.Common.{
  ℕ, zero, suc, Option, none, some, List, [], ◌∷◌, ◌++◌, length, take, drop, get_or, set, ◌≡◌, ◌≢◌,
  refl, ap,
}
use linuxapp.Common.Int.{ℤ, pos, negsuc}
use linuxapp.FileOpt.Interface.{Files, Mode, or_empty, IsWorking}

pub record Disk : Type 0 where
  pub file : Option (List ℕ)
  pub table : List (Option ℕ)

abbrev lookup : Disk → ℤ → Option ℕ
lookup d (pos n) = get_or d.table n none
lookup d (negsuc n) = none

-- The descriptor is put, or taken out with none.
abbrev put : ℤ → Option ℕ → Disk → Disk
put (pos n) k d = record d { table = set d.table n k }
put (negsuc n) k d = d

abbrev pub disk : Files
disk = record {
  State = Disk;
  contents = λ d. d.file;
  offset = lookup;
  open_file = λ mode d. (
    pos (length d.table),
    record { file = some (or_empty d.file); table = d.table ++ some 0 ∷ [] },
  );
  write = λ fd bs d. (
    pos (length bs),
    put fd (some (length bs)) (record d { file = some (bs ++ drop (length bs) (or_empty d.file)) }),
  );
  fsync = λ fd d. (pos 0, d);
  close = λ fd d. (pos 0, put fd none d);
  read = λ fd n d. (
    pos (length (take n (or_empty d.file))),
    take n (or_empty d.file),
    put fd (some (length (take n (or_empty d.file)))) d,
  );
}

get_or_past : (xs : List (Option ℕ)) → get_or xs (length xs) none ≡ none
get_or_past [] = refl
get_or_past (x ∷ xs) = get_or_past xs

get_or_last : (xs : List (Option ℕ)) (a : Option ℕ) → get_or (xs ++ a ∷ []) (length xs) none ≡ a
get_or_last [] a = refl
get_or_last (x ∷ xs) a = get_or_last xs a

get_or_front :
    (xs : List (Option ℕ)) (a : Option ℕ) (n : ℕ)
    → n ≢ length xs
    → get_or (xs ++ a ∷ []) n none ≡ get_or xs n none
get_or_front [] a zero h = absurd (h refl)
get_or_front [] a (suc n) h = refl
get_or_front (x ∷ xs) a zero h = refl
get_or_front (x ∷ xs) a (suc n) h = get_or_front xs a n (λ e. h (ap suc e))

-- The table as the open descriptor at n has its offset changed.
get_or-set-some :
    (xs : List (Option ℕ)) (n k j : ℕ)
    → get_or xs n none ≡ some k
    → get_or (set xs n (some j)) n none ≡ some j
get_or-set-some [] n k j h = cc
get_or-set-some (x ∷ xs) zero k j h = refl
get_or-set-some (x ∷ xs) (suc n) k j h = get_or-set-some xs n k j h

get_or-set-none : (xs : List (Option ℕ)) (n : ℕ) → get_or (set xs n none) n none ≡ none
get_or-set-none [] n = refl
get_or-set-none (x ∷ xs) zero = refl
get_or-set-none (x ∷ xs) (suc n) = get_or-set-none xs n

get_or-set_ne :
    (xs : List (Option ℕ)) (n m : ℕ) (v : Option ℕ)
    → m ≢ n
    → get_or (set xs n v) m none ≡ get_or xs m none
get_or-set_ne [] n m v h = refl
get_or-set_ne (x ∷ xs) zero zero v h = absurd (h refl)
get_or-set_ne (x ∷ xs) zero (suc m) v h = refl
get_or-set_ne (x ∷ xs) (suc n) zero v h = refl
get_or-set_ne (x ∷ xs) (suc n) (suc m) v h = get_or-set_ne xs n m v (λ e. h (ap suc e))

lookup-put_ne : (fd i : ℤ) (k : Option ℕ) (d : Disk) → i ≢ fd → lookup (put fd k d) i ≡ lookup d i
lookup-put_ne (pos n) (pos m) k d h = get_or-set_ne d.table n m k (λ e. h (ap pos e))
lookup-put_ne (pos n) (negsuc m) k d h = refl
lookup-put_ne (negsuc n) i k d h = refl

lookup-put-none : (fd : ℤ) (d : Disk) → lookup (put fd none d) fd ≡ none
lookup-put-none (pos n) d = get_or-set-none d.table n
lookup-put-none (negsuc n) d = refl

file-put : (fd : ℤ) (k : Option ℕ) (d : Disk) → (put fd k d).file ≡ d.file
file-put (pos n) k d = refl
file-put (negsuc n) k d = refl

lookup-open_ne :
    (i : ℤ) (d : Disk)
    → i ≢ pos (length d.table)
    → lookup (disk.open_file Mode.writing d).1 i ≡ lookup d i
lookup-open_ne (pos m) d h = get_or_front d.table (some 0) m (λ e. h (ap pos e))
lookup-open_ne (negsuc m) d h = refl

pub disk-IsWorking : IsWorking disk
disk-IsWorking = record {
  opened = λ mode d how. (
    length d.table,
    (disk.open_file mode d).1,
    refl,
    get_or_past d.table,
    get_or_last d.table (some 0),
    λ i h. lookup-open_ne i d h,
    refl,
  );
  written = λ n bs c d e h. (
    (disk.write (pos n) bs d).1,
    refl,
    get_or-set-some d.table n 0 (length bs) h,
    λ i ne. lookup-put_ne (pos n) i (some (length bs)) d ne,
    ap (λ o. some (bs ++ drop (length bs) (or_empty o))) e,
  );
  synced = λ n k d h. (d, refl, λ i. refl, refl);
  closed = λ fd d. (
    pos 0,
    put fd none d,
    refl,
    lookup-put-none fd d,
    λ i ne. lookup-put_ne fd i none d ne,
    file-put fd none d,
  );
  was_read = λ n k c d e h. (
    (disk.read (pos n) k d).2,
    ap (λ o. (pos (length (take k (or_empty o))), take k (or_empty o), (disk.read (pos n) k d).2))
        e,
    λ i ne. lookup-put_ne (pos n) i (some (length (take k (or_empty d.file)))) d ne,
    refl,
  );
}
