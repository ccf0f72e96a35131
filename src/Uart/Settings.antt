-- ===== src/Uart/Settings.antt =====
-- What the configuration of uart_set_opt makes of its arguments, read back from the flags as the
-- terminal interface documents them.
use linuxapp.Common.{ℕ, ◌==◌, ◌||◌, Bool, true, if◌then◌else◌, [], ◌∷◌, ◌≡◌, refl, arith}
use linuxapp.Common.Int.{ℤ, pos}
use linuxapp.Uart.{
  CharSize, cs5, cs6, cs7, cs8, Termios, newtio, uart_set_opt, is_zero, set_bits, set_parity,
  set_speed, set_stop,
}

abbrev pub char_bits : CharSize → ℕ
char_bits cs5 = 5
char_bits cs6 = 6
char_bits cs7 = 7
char_bits cs8 = 8

abbrev pub parity_of : Termios → ℕ
parity_of t = if t.parenb then (if t.parodd then b'O' else b'E') else b'N'

abbrev pub stop_bits : Termios → ℕ
stop_bits t = if t.cstopb then 2 else 1

abbrev pub is_speed : ℕ → Bool
is_speed n = n == 2400 || n == 4800 || n == 9600 || n == 115200 || n == 460800

-- Where both system calls succeed, uart_set_opt returns 0 whatever its other arguments are, and the
-- port gets 7 or 8 bits, the parity, 1 or 2 stop bits and the speed as asked for. An argument that
-- has no case is no error: it gives 5 bits, no parity, 1 stop bit, or 9600.
pub uart_set_opt_lem :
    (get_ret : ℤ) (set_ret : Termios → ℤ) (n_speed n_bits n_event n_stop : ℕ)
    → is_zero get_ret ≡ true
    → is_zero (set_ret (newtio n_speed n_bits n_event n_stop)) ≡ true
    → let t = newtio n_speed n_bits n_event n_stop in
      (uart_set_opt get_ret set_ret n_speed n_bits n_event n_stop ≡ (pos 0, t ∷ []))
      × (char_bits t.csize ≡ (if n_bits == 7 || n_bits == 8 then n_bits else 5))
      × (parity_of t ≡ (if n_event == b'O' || n_event == b'E' then n_event else b'N'))
      × (stop_bits t ≡ (if n_stop == 2 then 2 else 1))
      × (t.ispeed ≡ (if is_speed n_speed then n_speed else 9600))
      × (t.ospeed ≡ t.ispeed)
unfolding uart_set_opt newtio set_bits set_parity set_speed set_stop
uart_set_opt_lem get_ret set_ret n_speed n_bits n_event n_stop h k =
    (rw h (rw k refl), bits_read, parity_read, stop_read, speed_read, both_speeds)
  where
    bits_read :
        char_bits (newtio n_speed n_bits n_event n_stop).csize
        ≡ (if n_bits == 7 || n_bits == 8 then n_bits else 5)
    bits_read = ground arith

    parity_read :
        parity_of (newtio n_speed n_bits n_event n_stop)
        ≡ (if n_event == b'O' || n_event == b'E' then n_event else b'N')
    parity_read = ground arith

    stop_read : stop_bits (newtio n_speed n_bits n_event n_stop) ≡ (if n_stop == 2 then 2 else 1)
    stop_read = ground arith

    speed_read :
        (newtio n_speed n_bits n_event n_stop).ispeed ≡ (if is_speed n_speed then n_speed else 9600)
    speed_read = ground arith

    both_speeds :
        (newtio n_speed n_bits n_event n_stop).ospeed
        ≡ (newtio n_speed n_bits n_event n_stop).ispeed
    both_speeds = ground arith
