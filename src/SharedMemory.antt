-- ===== src/SharedMemory.antt =====
-- The programs around a block of shared memory: iMX287Learn/sharememory/main.c, and the two of
-- iMX287Learn/fifo, mainsrc0/main.c (the parent) and mainsrc1/loadprogram.c (which it loads into
-- its child). The calls on the block are those of SharedMemory.Interface.
pub mod Interface
pub mod Latest
pub mod Named
pub mod Objects
pub mod Sample
mod Tests
use linuxapp.Common.{
  ℕ, ◌+◌, ◌*◌, ◌/◌, ◌%◌, Bool, Option, none, some, List, [], ◌∷◌, ◌++◌, if◌then◌else◌, false, true,
  ◌≡◌, refl,
}
use linuxapp.Common.Int.{ℤ, pos, ltb_ℤ}
use linuxapp.Common.Timeval.{Timeval}
use linuxapp.Processes.{
  Printed, argc, arg, env_line, loadprogram, Outcome, exit, running, or_exit, go_on, Loaded,
  create_process,
}
use linuxapp.Fifo.{FileCall, wfifo_init, rfifo_init}
use linuxapp.SharedMemory.Interface.{Block}
use Prim.Native.String.{String}

-- SHM_APP_SIZE
abbrev pub shm_app_size : ℕ
shm_app_size = 256

-- A 32-bit word in memory, the low byte first.
abbrev pub word_bytes : ℕ → List ℕ
word_bytes w = w % 256 ∷ w / 256 % 256 ∷ w / 65536 % 256 ∷ w / 16777216 % 256 ∷ []

-- A struct timeval in memory, with a 32-bit time_t.
abbrev pub timeval_bytes : Timeval → List ℕ
timeval_bytes tv = word_bytes tv.tv_sec ++ word_bytes tv.tv_usec

-- The time that a memcpy out of the block gives.
unfoldable pub read_time : List ℕ → Option Timeval
read_time (a ∷ b ∷ c ∷ d ∷ e ∷ f ∷ g ∷ h ∷ rest) = some (record {
  tv_sec = a + b * 256 + c * 65536 + d * 16777216;
  tv_usec = e + f * 256 + g * 65536 + h * 16777216;
})
read_time bytes = none

-- loadpath and env_init.
abbrev pub loadpath : String
loadpath = "/home/wgco/Linux_App/sharememory/loadsrc/loadprogram"

abbrev pub loadprogram_args : List String
loadprogram_args = "loadprogram" ∷ "I am " ∷ "a program!" ∷ []

abbrev pub env_init : List String
env_init = "USER=sharememory" ∷ "HOME=/home/wgco/Linux_App/sharememory/loadsrc/" ∷ []

-- `create_sub_process` of sharememory/main.c.
unfoldable pub create_sub_process : ℤ → Bool → Outcome (Option Loaded)
create_sub_process pid execle =
    create_process pid execle (record { path = loadpath; args = loadprogram_args; env = env_init })

-- `create_sub_thread`, by whether pthread_create answers 0.
unfoldable pub create_sub_thread : Bool → Outcome (Unit {0})
create_sub_thread created = if created then running tt else exit 255

-- What mainsrc0/main.c loads into its child.
abbrev pub main1 : Loaded
main1 = record {
  path = "/home/wgco/linuxapp/fifo/mainsrc1/MAIN1";
  args = "MAIN1" ∷ "I am " ∷ "a program!" ∷ [];
  env = "USER=sharememory" ∷ "HOME=/home/wgco/linuxapp/fifo/mainsrc1/" ∷ [];
}

-- `create_sub_process` of mainsrc0/main.c.
unfoldable pub create_child : ℤ → Bool → Outcome (Option Loaded)
create_child pid execle = create_process pid execle main1

-- What `main` of mainsrc1/loadprogram.c prints first, as process/loadprogram.c does.
unfoldable pub main1_output : List String → List String → List Printed
unfolding loadprogram
main1_output argv environ = loadprogram argv environ

-- What the parent's child prints, if it is loaded.
main1_prints :
    main1_output main1.args main1.env
    ≡ argc 3
      ∷ arg "MAIN1"
      ∷ arg "I am "
      ∷ arg "a program!"
      ∷ env_line "USER=sharememory"
      ∷ env_line "HOME=/home/wgco/linuxapp/fifo/mainsrc1/"
      ∷ []
unfolding main1_output loadprogram
main1_prints = refl

-- The answers of the calls that make the pipe and its thread: whether access finds the file, what
-- mkfifo answers, and whether the thread is made.
pub record PipeAnswers : Type 0 where
  pub existed : Bool
  pub made : ℤ
  pub created : Bool

module _ (P : Block) where
  open P use {State, shm_open, ftruncate, mmap, store}

  -- `share_memory_init` of sharememory/main.c.
  unfoldable pub share_memory_init : State → Outcome State
  share_memory_init s = or_exit (shm_open true s) 255 (λ t.
      or_exit (ftruncate shm_app_size t) 255
        (λ u. or_exit (mmap shm_app_size u) 255 (λ v. running v)))

  -- `share_memory_init` of mainsrc0/main.c.
  unfoldable pub parent_init : State → Outcome State
  parent_init s = or_exit (shm_open true s) 1 (λ t.
      or_exit (ftruncate shm_app_size t) 255
        (λ u. or_exit (mmap shm_app_size u) 255 (λ v. running v)))

  -- `share_memory_init` of mainsrc1/loadprogram.c, which does not truncate.
  unfoldable pub child_init : State → Outcome State
  child_init s = or_exit (shm_open false s) 255 (λ t.
      or_exit (ftruncate shm_app_size t) 255
        (λ u. or_exit (mmap shm_app_size u) 255 (λ v. running v)))

  -- One round of the parent's loop, at the time that gettimeofday gives.
  unfoldable pub parent_round : Timeval → State → State
  parent_round tv s = store (timeval_bytes tv) s

  -- `main` of sharememory/main.c up to its loop: what the process runs, and the block.
  unfoldable pub main : ℤ → Bool → Bool → State → Outcome (Option Loaded × State)
  unfolding create_sub_process create_sub_thread share_memory_init
  main pid execle created s = go_on (create_sub_process pid execle) (λ loaded. elim loaded [
    | some program ↦ running (some program, s)
    | none ↦
        go_on (create_sub_thread created)
          (λ _. go_on (share_memory_init s) (λ t. running (none, t)))
  ])

  -- `main` of mainsrc0/main.c up to its loop: the block, then the pipe, then the child.
  unfoldable pub parent_main :
      PipeAnswers → ℤ → Bool → State → Outcome (Option Loaded × List FileCall × State)
  unfolding create_child parent_init
  parent_main pipe pid execle s = go_on (parent_init s) (λ t.
      or_exit (wfifo_init pipe.existed pipe.made pipe.created) 1
        (λ calls. go_on (create_child pid execle) (λ loaded. running (loaded, calls, t))))

  -- `main` of mainsrc1/loadprogram.c up to its loop, which only sleeps.
  unfoldable pub child_main : Bool → State → Outcome State
  unfolding child_init
  child_main created s = go_on (child_init s) (λ t. or_exit (rfifo_init created) 1 (λ _. running t))
