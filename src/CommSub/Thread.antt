-- ===== src/CommSub/Thread.antt =====
-- The thread of comm_sub.c, and cqada/app/main.c, which starts it.
use linuxapp.Common.{
  ℕ, Bool, Option, none, some, ◌>>=◌, List, [], ◌∷◌, if◌then◌else◌, ◌≡◌, refl, ◌∙◌, arith,
}
use linuxapp.Common.Int.{ℤ}
use linuxapp.Uart.{ReadResult, Termios}
use linuxapp.CommSub.{CommSub, comm_sub_read_tick, comm_sub_init, comm_sub_reset}
use Prim.Native.String.{String}

-- `comm_sub_loop`
unfoldable comm_sub_loop : ℕ → ReadResult → CommSub → Option CommSub
unfolding comm_sub_read_tick
comm_sub_loop now r s = comm_sub_read_tick now r s

-- The rounds of the thread's endless loop, each with its time and its answer.
unfoldable thread_rounds : List (ℕ × ReadResult) → CommSub → Option CommSub
unfolding comm_sub_loop
thread_rounds [] s = some s
thread_rounds ((now, r) ∷ ticks) s = comm_sub_loop now r s >>= thread_rounds ticks

-- `comm_sub_thread`
unfoldable comm_sub_thread :
    (String → ℤ) → ℤ → (Termios → ℤ) → List (ℕ × ReadResult) → CommSub → Option CommSub
unfolding comm_sub_init thread_rounds
comm_sub_thread open_ret get_ret set_ret ticks s =
    comm_sub_init open_ret get_ret set_ret s >>= thread_rounds ticks

-- `comm_sub_start_th`, which is all that main of app/main.c does, by what pthread_create answers;
-- `none` is the end of the program.
unfoldable comm_sub_start_th : Bool → Option (Unit {0})
comm_sub_start_th created = if created then some tt else none

-- While no reception has been started, a tick does not read the port.
tick-idle :
    (now : ℕ) (r : ReadResult) (s : CommSub) → s.time_out ≡ 0 → comm_sub_read_tick now r s ≡ some s
unfolding comm_sub_read_tick
tick-idle now r s h = ground arith

rounds-idle :
    (ticks : List (ℕ × ReadResult)) (s : CommSub) → s.time_out ≡ 0 → thread_rounds ticks s ≡ some s
unfolding thread_rounds comm_sub_loop
rounds-idle [] s h = refl
rounds-idle ((now, r) ∷ ticks) s h = rw (tick-idle now r s h) (rounds-idle ticks s h)

init_keeps_time_out :
    (open_ret : String → ℤ) (get_ret : ℤ) (set_ret : Termios → ℤ) (s t : CommSub)
    → comm_sub_init open_ret get_ret set_ret s ≡ some t
    → t.time_out ≡ s.time_out
unfolding comm_sub_init comm_sub_reset
init_keeps_time_out open_ret get_ret set_ret s t e = ground arith

-- The thread as main starts it, with the deadline at its first value 0, keeps the state that
-- comm_sub_init leaves: nothing that it calls ever starts a reception.
thread_reads_nothing :
    (open_ret : String → ℤ) (get_ret : ℤ) (set_ret : Termios → ℤ) (ticks : List (ℕ × ReadResult))
    (s t : CommSub)
    → s.time_out ≡ 0
    → comm_sub_init open_ret get_ret set_ret s ≡ some t
    → comm_sub_thread open_ret get_ret set_ret ticks s ≡ some t
unfolding comm_sub_thread
thread_reads_nothing open_ret get_ret set_ret ticks s t h e =
    rw e (rounds-idle ticks t (init_keeps_time_out open_ret get_ret set_ret s t e ∙ h))
