-- ===== src/FileOpt.antt =====
-- iMX287Learn/fileopt/fileopt.c: a text is written to a file, which is then read back and printed.
-- The calls on files are those of FileOpt.Interface.
-- `none` is a read outside of an array.
pub mod Interface
pub mod Copy
pub mod Disk
mod Tests
use linuxapp.Common.Int.{is_negative, ℤ, pos, ltb_ℤ}
use linuxapp.Common.{
  ℕ, ◌-◌, Option, none, some, List, [], ◌||◌, ◌>>=◌, ◌∷◌, ◌++◌, length, take, if◌then◌else◌,
}
use linuxapp.Common.CString.{strlen, c_string, zeros}
use linuxapp.FileOpt.Interface.{Files, Mode, writing, reading}
use linuxapp.Processes.{Outcome, exit, running}

-- `Hello,linux`, as it stands in memory.
abbrev pub hello : List ℕ
hello = b'H' ∷ b'e' ∷ b'l' ∷ b'l' ∷ b'o' ∷ b',' ∷ b'l' ∷ b'i' ∷ b'n' ∷ b'u' ∷ b'x' ∷ []

abbrev pub str : List ℕ
str = hello ++ 0 ∷ []

-- The number of bytes read, and the text, in the line that is printed.
pub record Line : Type 0 where
  pub bytes : ℤ
  pub buff : List ℕ

module _ (F : Files) where
  open F use {State, open_file, write, fsync, close, read}

  -- `main` up to the line of slashes: the text is written. The descriptor that close gets is what
  -- fsync has answered, and close's own answer is not looked at.
  unfoldable pub save : State → Option (Outcome State)
  save s = do
    let (fd, s1) = open_file writing s
    if is_negative fd then some (exit 1) else (do
      n ← strlen str
      let (bytes, s2) = write fd (take n str) s1
      if is_negative bytes then some (exit 1) else (do
        let (synced, s3) = fsync fd s2
        if is_negative synced then some (exit 1) else some (running (close synced s3).1)))

  -- The rest of `main`: the file is read into the zeroed buffer, and the line printed.
  unfoldable pub show : State → Option (Outcome (Line × State))
  show s = do
    let (fd, s1) = open_file reading s
    if is_negative fd then some (exit 1) else (do
      let (bytes, got, s2) = read fd 1024 s1
      if is_negative bytes then some (exit 1) else (do
        text ← c_string (got ++ zeros (1024 - length got))
        some (running (record { bytes = bytes; buff = text }, (close fd s2).1))))

  unfoldable pub main : State → Option (Outcome (Line × State))
  unfolding save show
  main s = save s >>= λ o. elim o [ exit status ↦ some (exit status) | running t ↦ show t ]
