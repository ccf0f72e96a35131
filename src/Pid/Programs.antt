-- ===== src/Pid/Programs.antt =====
-- The programs of iMX287Learn/pid: what each prints in so many rounds of its loop, which has no
-- end. `p` is its static variable as the program finds it.
use linuxapp.Common.{ℕ, List, [], ◌∷◌, replicate}
use linuxapp.Pid.Arith.{Arith, Pid, IncPid, SatPid}
use linuxapp.Pid.Positional
use linuxapp.Pid.Incremental
use linuxapp.Pid.Windup
use linuxapp.Pid.Variable
use linuxapp.Common.{◌∷◌}

-- The outputs of a controller for a list of settings: pid_realize returns the field
-- `actual_speed`.
unfoldable pub outputs : {S F : Type 0} → (S → F → S) → (S → F) → S → List F → List F
outputs step out s [] = []
outputs step out s (x ∷ xs) = out (step s x) ∷ outputs step out (step s x) xs

module _ (A : Arith) where
  open A use {F, literal}

  -- The setting of every round: 200.0 in four of the programs, the int 200 in the others.
  abbrev settings : ℕ → List F
  settings n = replicate n (literal 2000 1)

  abbrev int_settings : ℕ → List F
  int_settings n = replicate n (literal 200 0)

  -- pid0.c
  unfoldable main_positional : ℕ → Pid F → List F
  unfolding outputs Positional.pid_init Positional.pid_realize
  main_positional n p =
      outputs (Positional.pid_realize A) (λ p. p.actual_speed) (Positional.pid_init A p)
        (settings n)

  -- pid2_0.c
  unfoldable main_positional_separated : ℕ → Pid F → List F
  unfolding outputs Positional.pid_init_separated Positional.pid_realize_separated
  main_positional_separated n p =
      outputs (Positional.pid_realize_separated A) (λ p. p.actual_speed)
        (Positional.pid_init_separated A p) (settings n)

  -- pid1.c
  unfoldable main_incremental : ℕ → IncPid F → List F
  unfolding outputs Incremental.pid_init Incremental.pid_realize
  main_incremental n p =
      outputs (Incremental.pid_realize A) (λ p. p.actual_speed) (Incremental.pid_init A p)
        (settings n)

  -- pid2_1.c
  unfoldable main_incremental_separated : ℕ → IncPid F → List F
  unfolding outputs Incremental.pid_init_separated Incremental.pid_realize_separated
  main_incremental_separated n p =
      outputs (Incremental.pid_realize_separated A) (λ p. p.actual_speed)
        (Incremental.pid_init_separated A p) (settings n)

  -- pid3.c
  unfoldable main_limited : ℕ → SatPid F → List F
  unfolding outputs Windup.pid_init Windup.pid_realize
  main_limited n p =
      outputs (Windup.pid_realize A) (λ p. p.actual_speed) (Windup.pid_init A p) (int_settings n)

  -- pid4.c
  unfoldable main_halved : ℕ → SatPid F → List F
  unfolding outputs Windup.pid_init_halved Windup.pid_realize_halved
  main_halved n p =
      outputs (Windup.pid_realize_halved A) (λ p. p.actual_speed) (Windup.pid_init_halved A p)
        (int_settings n)

  -- pid5.c
  unfoldable main_variable : ℕ → SatPid F → List F
  unfolding outputs Variable.pid_init Variable.pid_realize
  main_variable n p =
      outputs (Variable.pid_realize A) (λ p. p.actual_speed) (Variable.pid_init A p)
        (int_settings n)
