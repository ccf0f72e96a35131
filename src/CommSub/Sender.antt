-- ===== src/CommSub/Sender.antt =====
-- The sending side: comm_sub_add_list and comm_sub_exeMbus.
use linuxapp.Common.{false, ℕ, Option, some, none, List, [], ◌∷◌, ◌≡◌, arith, true, >>=-eq-some}
use linuxapp.Common.Int.{ℤ}
use linuxapp.Uart.{Termios}
use Prim.Native.String.{String}
use linuxapp.CommSub.{
  CommSub, Op, reset, add_list, start_rcv, check, exe_mbus, read_tick, comm_sub_add_list,
  comm_sub_init, comm_sub_check, comm_sub_read_tick, step, run, Check, ReadResult,
  comm_sub_check_crc_buf, comm_sub_reset, Bool, comm_sub_start_rcv, after_packet,
  comm_sub_check_packet,
}

-- Nothing waits to be sent.
abbrev IsIdle : CommSub → Type 0
IsIdle s = s.sub_list.sof ≡ s.sub_list.eof

add_list_lem : (buf : List ℕ) (s : CommSub) → comm_sub_add_list buf s ≡ some s
unfolding comm_sub_add_list
add_list_lem buf s = ground arith

crc_buf_keeps_list :
    (crc : ℕ × ℕ) (s s' : CommSub) (b : Bool)
    → comm_sub_check_crc_buf crc s ≡ some (b, s')
    → s'.sub_list ≡ s.sub_list
unfolding comm_sub_check_crc_buf
crc_buf_keeps_list crc s s' b e = ground arith

check_keeps_list :
    (s s' : CommSub) (c : Check) (r : Bool × Option (ℕ × ℕ))
    → after_packet r s ≡ some (c, s')
    → s'.sub_list ≡ s.sub_list
unfolding after_packet
check_keeps_list s s' c (false, o) e = ground arith
check_keeps_list s s' c (true, none) e = cc
check_keeps_list s s' c (true, some crc) e =
    let (r, found, rest) = >>=-eq-some (comm_sub_check_crc_buf crc s) _ e in
    ground (arith, crc_buf_keeps_list crc s r.1 r.0)

tick_keeps_list :
    (now : ℕ) (r : ReadResult) (s s' : CommSub)
    → comm_sub_read_tick now r s ≡ some s'
    → s'.sub_list ≡ s.sub_list
unfolding comm_sub_read_tick
tick_keeps_list now r s s' e = ground arith

step-IsIdle :
    (o : Op) (s s' : CommSub) (out : List (List ℕ))
    → IsIdle s
    → step o s ≡ some (s', out)
    → (s'.sub_list ≡ s.sub_list) × (out ≡ [])
unfolding step comm_sub_reset comm_sub_start_rcv
step-IsIdle reset s s' out idle e = ground arith
step-IsIdle (add_list buf) s s' out idle e = ground (arith, add_list_lem buf s)
step-IsIdle (start_rcv now ms) s s' out idle e = ground arith
step-IsIdle check s s' out idle e =
    let (r, found, rest) = >>=-eq-some (comm_sub_check s) _ e in
    let (p, packet, after) =
      >>=-eq-some (comm_sub_check_packet s.rcv) _ (unfold comm_sub_check in found) in
    ground (arith, check_keeps_list s r.1 r.0 p after)
step-IsIdle (exe_mbus now) s s' out idle e = ground arith
step-IsIdle (read_tick now r) s s' out idle e = ground (arith, tick_keeps_list now r s)

run-IsIdle :
    (ops : List Op) (s s' : CommSub) (out : List (List ℕ))
    → IsIdle s
    → run ops s ≡ some (s', out)
    → (s'.sub_list ≡ s.sub_list) × (out ≡ [])
unfolding run
run-IsIdle [] s s' out idle e = ground arith
run-IsIdle (o ∷ ops) s s' out idle e =
    let (m, first, rest) = >>=-eq-some (step o s) _ e in
    let (m', later, end) = >>=-eq-some (run ops m.0) _ rest in
    let now = step-IsIdle o s m.0 m.1 idle first in
    let then_on = run-IsIdle ops m.0 m'.0 m'.1 (ground (arith, now)) later in
    ground (arith, now, then_on)

-- Whatever the system calls return at the start and whatever operations follow, in any order: no
-- buffer is ever written to the port, since comm_sub_add_list compares `sof` with itself and so
-- stores no packet.
pub init_sends_nothing :
    (open_ret : String → ℤ) (get_ret : ℤ) (set_ret : Termios → ℤ) (s t s' : CommSub) (ops : List Op)
    (out : List (List ℕ))
    → comm_sub_init open_ret get_ret set_ret s ≡ some t
    → run ops t ≡ some (s', out)
    → (out ≡ []) × (s'.sub_list ≡ t.sub_list)
unfolding comm_sub_init comm_sub_reset
init_sends_nothing open_ret get_ret set_ret s t s' ops out started e =
    let kept = run-IsIdle ops t s' out (ground arith) e in (kept.1, kept.0)
