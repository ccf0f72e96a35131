-- ===== src/Threads.antt =====
-- iMX287Learn/thread/main.c: a child that loads loadprogram.c, and a thread beside main, whose body
-- in threadbody.c only prints and sleeps.
use linuxapp.Common.{Bool, Option, none, some, true, false, List, [], ◌∷◌, ◌≡◌, refl, if◌then◌else◌}
use linuxapp.Common.Int.{ℤ, pos}
use linuxapp.Processes
use Prim.Native.String.{String}
use linuxapp.Processes.{
  Printed, argc, arg, env_line, Outcome, exit, running, go_on, Loaded, create_process,
}

-- `create_sub_process`
unfoldable create_sub_process : ℤ → Bool → Outcome (Option Loaded)
create_sub_process pid execle = create_process pid execle (record {
  path = "/home/wgco/Linux_App/thread/loadprogram";
  args = "loadprogram" ∷ "I am " ∷ "a program!" ∷ [];
  env = "USER=process" ∷ "HOME=/home/wgco/Linux_App/thread" ∷ [];
})

-- `create_sub_thread`, by whether pthread_create answers 0.
unfoldable create_sub_thread : Bool → Outcome (Unit {0})
create_sub_thread created = if created then running tt else exit 255

-- `main` up to its loop, which only sleeps: what the process runs.
unfoldable main : ℤ → Bool → Bool → Outcome (Option Loaded)
unfolding create_sub_process create_sub_thread
main pid execle created = go_on (create_sub_process pid execle) (λ loaded. elim loaded [
  | some program ↦ running (some program)
  | none ↦ go_on (create_sub_thread created) (λ _. running none)
])

-- `main` of thread/loadprogram.c, up to its loop, which only sleeps: what it prints of its
-- arguments and its environment, as process/loadprogram.c does.
unfoldable loadprogram : List String → List String → List Printed
unfolding Processes.loadprogram
loadprogram argv environ = Processes.loadprogram argv environ

-- What the child prints, where execle succeeds; a process with its own code prints its own lines.
unfoldable child_output : Outcome (Option Loaded) → List Printed
unfolding loadprogram
child_output (exit status) = []
child_output (running none) = []
child_output (running (some program)) = loadprogram program.args program.env

-- A child whose execle succeeds prints what main.c hands on, whether or not a thread can be
-- created; where execle fails, it ends with 255 and never comes to create a thread.
child_prints :
    (created : Bool)
    → (child_output (main (pos 0) true created)
        ≡ argc 3
          ∷ arg "loadprogram"
          ∷ arg "I am "
          ∷ arg "a program!"
          ∷ env_line "USER=process"
          ∷ env_line "HOME=/home/wgco/Linux_App/thread"
          ∷ [])
      × (main (pos 0) false created ≡ exit 255)
unfolding child_output main create_sub_process create_process
child_prints created = (refl, refl)
