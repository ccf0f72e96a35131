-- ===== src/Processes.antt =====
-- fork and execle: iMX287Learn/process/fcprocess.c, and the same steps in the programs that load
-- another into their child.
use linuxapp.Common.{
  length, map, ◌++◌, true, ◌≡◌, refl, ℕ, zero, suc, Bool, Option, none, some, List, [], ◌∷◌,
  if◌then◌else◌,
}
use linuxapp.Common.Int.{ℤ, pos, negsuc}
use Prim.Native.String.{String}

-- A process goes on, or has ended with a status; exit(-1) ends it with 255.
pub data Outcome {ℓ} (A : Type ℓ) : Type ℓ where
  exit : ℕ → Outcome A
  running : A → Outcome A

-- A call that ends the process where it fails.
abbrev pub or_exit {ℓ κ} : {A : Type ℓ} {B : Type κ} → Option A → ℕ → (A → Outcome B) → Outcome B
or_exit none status f = exit status
or_exit (some a) status f = f a

abbrev pub go_on {ℓ κ} : {A : Type ℓ} {B : Type κ} → Outcome A → (A → Outcome B) → Outcome B
go_on (exit status) f = exit status
go_on (running a) f = f a

-- What a process runs from now on.
pub record Loaded : Type 0 where
  pub path : String
  pub args : List String
  pub env : List String

-- fork answers `pid` in this process, and the program is loaded unless execle returns. A process
-- that goes on with its own code gives `none`; where fork fails it is the caller.
unfoldable pub create_process : ℤ → Bool → Loaded → Outcome (Option Loaded)
create_process (negsuc n) execle program = running none
create_process (pos zero) execle program = if execle then running (some program) else exit 255
create_process (pos (suc n)) execle program = running none

-- `main` of process/fcprocess.c, up to the parent's loop of prints.
unfoldable pub main : ℤ → Bool → Outcome (Option Loaded)
unfolding create_process
main pid execle = create_process pid execle (record {
  path = "/home/wgco/Linux_App/process/loadprogram";
  args = "loadprogram" ∷ "I am " ∷ "a program!" ∷ [];
  env = "USER=process" ∷ "HOME=/home/wgco/Linux_App/process" ∷ [];
})

-- What loadprogram.c prints: the number of its arguments, each of them, and each line of `environ`.
pub data Printed : Type 0 where
  argc : ℕ → Printed
  arg env_line : String → Printed

-- `main` of process/loadprogram.c, up to its loop of prints, which has no end.
unfoldable pub loadprogram : List String → List String → List Printed
loadprogram argv environ = argc (length argv) ∷ (map arg argv ++ map env_line environ)

-- What is printed in a process, by what it runs; the parent prints its own lines.
unfoldable pub output : Outcome (Option Loaded) → List Printed
unfolding loadprogram
output (exit status) = []
output (running none) = []
output (running (some program)) = loadprogram program.args program.env

-- Where execle succeeds, the child prints the three arguments and the two lines of its environment
-- that fcprocess.c passes on.
child_prints :
    output (main (pos 0) true)
    ≡ argc 3
      ∷ arg "loadprogram"
      ∷ arg "I am "
      ∷ arg "a program!"
      ∷ env_line "USER=process"
      ∷ env_line "HOME=/home/wgco/Linux_App/process"
      ∷ []
unfolding output loadprogram main create_process
child_prints = refl
