-- ===== src/FileOpt/Tests.antt =====
-- A run on a file that held a longer text, with three descriptors open.
use linuxapp.Common.{ℕ, none, some, [], ◌∷◌, ◌++◌, length, ◌≡◌, arith}
use linuxapp.Common.CString.{IsText}
use linuxapp.Common.Int.{pos}
use linuxapp.FileOpt.{main, Line, hello}
use linuxapp.FileOpt.Copy.{main_lem, overwritten}
use linuxapp.FileOpt.Disk.{Disk, disk, disk-IsWorking}
use linuxapp.Processes.{running}

abbrev before : Disk
before = record { file = some (hello ++ hello); table = some 0 ∷ some 0 ∷ some 0 ∷ [] }

before-IsText : IsText (hello ++ hello)
unfolding IsText
before-IsText = omega arith

main_lem_example :
    (line : Line) × (t : Disk) × (n : ℕ) × (main disk before ≡ some (running (line, t)))
    × (line.buff ≡ overwritten (hello ++ hello))
    × (line.bytes ≡ pos (length (overwritten (hello ++ hello))))
    × (t.file ≡ some (overwritten (hello ++ hello)))
    × (disk.offset before (pos n) ≡ none)
    × (disk.offset t (pos n) ≡ some 11)
    × (disk.offset t (pos 0) ≡ none)
main_lem_example = main_lem disk disk-IsWorking before (λ e. cc) before-IsText (omega arith)
