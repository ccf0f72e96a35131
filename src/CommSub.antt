-- ===== src/CommSub.antt =====
-- iMX287Learn/cqada/uart/comm_sub.c and comm_sub.h: the Modbus master on the serial port, with the
-- static variables as a record. A result of `none` is an access outside an array.
use linuxapp.Common.Int.{is_negative, ℤ, pos, ltb_ℤ}
use linuxapp.Common.{
  ◌++◌, ℕ, ◌+◌, ◌-◌, ◌*◌, ◌==◌, ltb, u8, u16, u64, Bool, true, false, not, ◌&&◌, if◌then◌else◌,
  Option, none, some, ◌>>=◌, List, [], ◌∷◌, get_elem?, set, replicate,
}
use linuxapp.Uart.{ReadResult, Termios, uart_readbyte, uart_sendbytes, uart_open_port, uart_set_opt}
use Prim.Native.String.{String}
pub mod Sender
pub mod Frame
pub mod Checks
pub mod Queue
pub mod Thread
mod Tests
use linuxapp.Crc.{crc16}
use linuxapp.Usrtypes.{CommRcv, chars_maxsize, isempty, delete_flush, add_flush}

-- `struct MBUSPACKET`: eight bytes.
pub record MbusPacket : Type 0 where
  pub addr : ℕ
  pub ins : ℕ
  pub reg : ℕ × ℕ
  pub data_bytes : ℕ × ℕ
  pub crc : ℕ × ℕ

-- COMM_SUB_LIST_MAX
abbrev pub comm_sub_list_max : ℕ
comm_sub_list_max = 10

-- MBUS_RCV_MS
abbrev pub mbus_rcv_ms : ℕ
mbus_rcv_ms = 150

-- `struct COMMSUBLIST`
pub record CommSubList : Type 0 where
  pub rev0 : ℕ
  pub index : ℕ
  pub eof : ℕ
  pub sof : ℕ
  pub m_bus : List MbusPacket

-- The static variables of the file. Each entry of `crc_buf` is two bytes.
pub record CommSub : Type 0 where
  pub fd_uart : ℤ
  pub rcv : CommRcv
  pub time_out : ℕ
  pub sub_list : CommSubList
  pub crc_buf : List (ℕ × ℕ)

-- The packet that eight bytes of memory are.
unfoldable pub packet_at : List ℕ → Option MbusPacket
packet_at (a ∷ i ∷ r ∷ r' ∷ d ∷ d' ∷ c ∷ c' ∷ rest) =
    some (record { addr = a; ins = i; reg = (r, r'); data_bytes = (d, d'); crc = (c, c') })
packet_at _ = none

unfoldable pub packet_bytes : MbusPacket → List ℕ
packet_bytes p =
    p.addr ∷ p.ins ∷ p.reg.0 ∷ p.reg.1 ∷ p.data_bytes.0 ∷ p.data_bytes.1 ∷ p.crc.0 ∷ p.crc.1 ∷ []

-- A write into an array; none is outside of it.
unfoldable pub store_at {ℓ} : {A : Type ℓ} → List A → ℕ → A → Option (List A)
store_at xs i v = get_elem? xs i >>= λ _. some (set xs i v)

-- `bzero(&_rcv, sizeof(_rcv))`
abbrev pub zero_rcv : CommRcv
zero_rcv = record { length = 0; chars = replicate chars_maxsize 0 }

abbrev pub zero_packet : MbusPacket
zero_packet = record { addr = 0; ins = 0; reg = (0, 0); data_bytes = (0, 0); crc = (0, 0) }

-- `bzero(&_SubList, sizeof(_SubList))`
abbrev pub zero_list : CommSubList
zero_list = record {
  rev0 = 0;
  index = 0;
  eof = 0;
  sof = 0;
  m_bus = replicate comm_sub_list_max zero_packet;
}

unfoldable pub comm_sub_reset : CommSub → CommSub
comm_sub_reset s = record s { rcv = zero_rcv }

-- The guard names `_SubList.sof` twice, as the source does.
unfoldable pub comm_sub_add_list : List ℕ → CommSub → Option CommSub
unfolding isempty packet_at store_at add_flush
comm_sub_add_list buf s =
    let l = s.sub_list in
    if not (isempty l.sof l.sof)
    then (do
      p ← packet_at buf
      m ← store_at l.m_bus l.sof p
      some
          (record s { sub_list = record l { m_bus = m; eof = add_flush l.eof comm_sub_list_max } }))
    else some s

-- `now` is what getSystemTimeMilli() returned.
unfoldable pub comm_sub_start_rcv : ℕ → ℕ → CommSub → CommSub
comm_sub_start_rcv now ms s = record s { time_out = u64 (now + ms) }

-- The answer, and what was stored through pCrc16, if anything was.
unfoldable pub comm_sub_check_packet : CommRcv → Option (Bool × Option (ℕ × ℕ))
comm_sub_check_packet rcv = if ltb rcv.length 3 then some (false, none) else do
  p ← get_elem? rcv.chars (rcv.length - 2)
  q ← get_elem? rcv.chars (rcv.length - 1)
  w ← crc16 rcv.chars (rcv.length - 2)
  some (u16 (p * 256 + q) == w, some (p, q))

-- The slot of the sender's address, `_rcv.chars[0]-1` as a uint8_t.
abbrev pub slot_of : ℕ → ℕ
slot_of addr = u8 (addr + 255)

abbrev pub same_bytes : ℕ × ℕ → ℕ × ℕ → Bool
same_bytes a b = a.0 == b.0 && a.1 == b.1

unfoldable pub comm_sub_check_crc_buf : ℕ × ℕ → CommSub → Option (Bool × CommSub)
unfolding store_at
comm_sub_check_crc_buf crc s = do
  addr ← get_elem? s.rcv.chars 0
  old ← get_elem? s.crc_buf (slot_of addr)
  if same_bytes old crc
      then some (false, s)
      else (do buf ← store_at s.crc_buf (slot_of addr) crc; some (true, record s { crc_buf = buf }))

-- CHECK_PASS, CHECK_PACKET_ERROR, CHECK_CRCBUF_EQUAL
pub data Check : Type 0 where
  check_pass check_packet_error check_crcbuf_equal : Check

-- `crc16` is read only where checkPacket has stored it.
unfoldable pub after_packet : Bool × Option (ℕ × ℕ) → CommSub → Option (Check × CommSub)
unfolding comm_sub_check_crc_buf
after_packet (false, _) s = some (check_packet_error, s)
after_packet (true, none) s = none
after_packet (true, some crc) s = do
  (fresh, s') ← comm_sub_check_crc_buf crc s
  some (if fresh then check_pass else check_crcbuf_equal, s')

unfoldable pub comm_sub_check : CommSub → Option (Check × CommSub)
unfolding comm_sub_check_packet after_packet
comm_sub_check s = do r ← comm_sub_check_packet s.rcv; after_packet r s

-- `comm_sub_exeMbus`: the new state, and the buffers written to the port in order.
unfoldable pub comm_sub_exe_mbus : ℕ → CommSub → Option (CommSub × List (List ℕ))
unfolding isempty packet_bytes comm_sub_reset comm_sub_start_rcv delete_flush uart_sendbytes
comm_sub_exe_mbus now s =
    let s' = comm_sub_start_rcv now mbus_rcv_ms (comm_sub_reset s) in
    let l = s.sub_list in
    if not (isempty l.sof l.eof)
    then (do
      p ← get_elem? l.m_bus l.sof
      some (
        record s' { sub_list = record l { sof = delete_flush l.sof comm_sub_list_max } },
        uart_sendbytes (packet_bytes p) 8 ∷ [],
      ))
    else some (s', [])

-- `_rcv.chars[_rcv.length++] = ch`
unfoldable pub rcv_put : CommRcv → ℕ → Option CommRcv
unfolding store_at
rcv_put rcv ch = do
  cs ← store_at rcv.chars rcv.length ch
  some (record { length = u8 (rcv.length + 1); chars = cs })

-- `comm_sub_read_tick`; the second argument is what the port's `read` does if it is called.
unfoldable pub comm_sub_read_tick : ℕ → ReadResult → CommSub → Option CommSub
unfolding uart_readbyte rcv_put
comm_sub_read_tick now r s =
    if ltb now s.time_out
    then (do rcv ← rcv_put s.rcv (uart_readbyte r); some (record s { rcv = rcv }))
    else some s

-- `comm_sub_init` ends the process where the port cannot be opened or configured (`none`).
unfoldable pub comm_sub_init : (String → ℤ) → ℤ → (Termios → ℤ) → CommSub → Option CommSub
unfolding comm_sub_reset uart_open_port uart_set_opt
comm_sub_init open_ret get_ret set_ret s =
    let fd = (uart_open_port open_ret 1).0 in
    let s' = comm_sub_reset (record s { sub_list = zero_list; fd_uart = fd }) in
    if is_negative fd
    then none
    else if ltb_ℤ (uart_set_opt get_ret set_ret 9600 8 b'N' 1).0 (pos 0)
    then none
    else some s'

-- The operations as one type, for runs of them in any order.
pub data Op : Type 0 where
  reset : Op
  add_list : List ℕ → Op
  start_rcv : ℕ → ℕ → Op
  check : Op
  exe_mbus : ℕ → Op
  read_tick : ℕ → ReadResult → Op

-- The state after an operation, with the buffers that it wrote to the port.
unfoldable pub step : Op → CommSub → Option (CommSub × List (List ℕ))
unfolding comm_sub_reset comm_sub_add_list comm_sub_start_rcv comm_sub_check comm_sub_exe_mbus
    comm_sub_read_tick
step reset s = some (comm_sub_reset s, [])
step (add_list buf) s = comm_sub_add_list buf s >>= λ s'. some (s', [])
step (start_rcv now ms) s = some (comm_sub_start_rcv now ms s, [])
step check s = comm_sub_check s >>= λ r. some (r.1, [])
step (exe_mbus now) s = comm_sub_exe_mbus now s
step (read_tick now r) s = comm_sub_read_tick now r s >>= λ s'. some (s', [])

unfoldable pub run : List Op → CommSub → Option (CommSub × List (List ℕ))
unfolding step
run [] s = some (s, [])
run (o ∷ ops) s = do (s', out) ← step o s; (s'', rest) ← run ops s'; some (s'', out ++ rest)
