-- ===== src/Uart.antt =====
-- iMX287Learn/cqada/uart/haluart.c: opening, configuring, writing and reading the serial port. The
-- system calls are arguments: what each of them returns.
pub mod Settings
mod Tests
use linuxapp.Common.{ℕ, ◌==◌, Bool, true, false, if◌then◌else◌, List, [], ◌∷◌, take}
use linuxapp.Common.Int.{ℤ, pos, negsuc}
use Prim.Native.String.{String}

-- The flag words of `struct termios` as their flags, the size of a character by its bits, and the
-- two control characters that the source sets.
pub data CharSize : Type 0 where
  cs5 cs6 cs7 cs8 : CharSize

pub record Termios : Type 0 where
  pub clocal : Bool
  pub cread : Bool
  pub csize : CharSize
  pub parenb : Bool
  pub parodd : Bool
  pub cstopb : Bool
  pub inpck : Bool
  pub istrip : Bool
  pub ispeed : ℕ
  pub ospeed : ℕ
  pub vtime : ℕ
  pub vmin : ℕ

-- `bzero(&newtio, sizeof(newtio))`. CS5 is the size whose bits are zero.
abbrev pub zero_termios : Termios
zero_termios = record {
  clocal = false;
  cread = false;
  csize = cs5;
  parenb = false;
  parodd = false;
  cstopb = false;
  inpck = false;
  istrip = false;
  ispeed = 0;
  ospeed = 0;
  vtime = 0;
  vmin = 0;
}

-- A system call that changes the port, in the order made.
pub data UartCall : Type 0 where
  open_dev : String → UartCall
  set_blocking : ℤ → UartCall

-- The device of a port number, if it has one.
abbrev pub port_device : ℕ → List String
port_device port =
    if port == 1
    then "/dev/ttySP0" ∷ []
    else if port == 2
    then "/dev/ttySP1" ∷ []
    else if port == 3
    then "/dev/ttySP2" ∷ []
    else []

abbrev pub is_minus_one : ℤ → Bool
is_minus_one (pos n) = false
is_minus_one (negsuc n) = n == 0

-- `uart_open_port(port)`, with what `open` returns for a device. The calls of fcntl(F_SETFL, 0)
-- and isatty only print their outcome.
open_device : (String → ℤ) → List String → ℤ × List UartCall
open_device open_ret [] = (negsuc 0, [])
open_device open_ret (dev ∷ _) =
    let fd = open_ret dev in
    if is_minus_one fd
    then (negsuc 0, open_dev dev ∷ [])
    else (fd, open_dev dev ∷ set_blocking fd ∷ [])

unfoldable pub uart_open_port : (String → ℤ) → ℕ → ℤ × List UartCall
unfolding open_device
uart_open_port open_ret port = open_device open_ret (port_device port)

-- The three switches of uart_set_opt and its stop bits.
unfoldable pub set_bits : ℕ → Termios → Termios
set_bits n_bits t =
    if n_bits == 7
    then record t { csize = cs7 }
    else if n_bits == 8
    then record t { csize = cs8 }
    else t

unfoldable pub set_parity : ℕ → Termios → Termios
set_parity n_event t =
    if n_event == b'O'
    then record t { parenb = true; parodd = true; inpck = true; istrip = true }
    else if n_event == b'E'
    then record t { inpck = true; istrip = true; parenb = true; parodd = false }
    else if n_event == b'N'
    then record t { parenb = false }
    else t

abbrev pub baud_of : ℕ → ℕ
baud_of n_speed =
    if n_speed == 2400
    then 2400
    else if n_speed == 4800
    then 4800
    else if n_speed == 9600
    then 9600
    else if n_speed == 115200
    then 115200
    else if n_speed == 460800
    then 460800
    else 9600

unfoldable pub set_speed : ℕ → Termios → Termios
set_speed n_speed t = record t { ispeed = baud_of n_speed; ospeed = baud_of n_speed }

unfoldable pub set_stop : ℕ → Termios → Termios
set_stop n_stop t =
    if n_stop == 1
    then record t { cstopb = false }
    else if n_stop == 2
    then record t { cstopb = true }
    else t

-- The configuration that uart_set_opt builds.
unfoldable pub newtio : ℕ → ℕ → ℕ → ℕ → Termios
unfolding set_bits set_parity set_speed set_stop
newtio n_speed n_bits n_event n_stop =
    let t = record zero_termios { clocal = true; cread = true; csize = cs5 } in
    let t' = set_stop n_stop (set_speed n_speed (set_parity n_event (set_bits n_bits t))) in
    record t' { vtime = 0; vmin = 0 }

abbrev pub is_zero : ℤ → Bool
is_zero (pos n) = n == 0
is_zero (negsuc n) = false

-- `uart_set_opt`: its return value and the configurations handed to tcsetattr. `get_ret` and
-- `set_ret` are what tcgetattr and tcsetattr return.
unfoldable pub uart_set_opt : ℤ → (Termios → ℤ) → ℕ → ℕ → ℕ → ℕ → ℤ × List Termios
unfolding newtio
uart_set_opt get_ret set_ret n_speed n_bits n_event n_stop =
    let t = newtio n_speed n_bits n_event n_stop in
    if is_zero get_ret
    then (if is_zero (set_ret t) then (pos 0, t ∷ []) else (negsuc 0, t ∷ []))
    else (negsuc 0, [])

-- What one `read(fd, buf, 1)` did: a byte, nothing there, or an error.
pub data ReadResult : Type 0 where
  got : ℕ → ReadResult
  nothing_there : ReadResult
  failed : ReadResult

-- `return byte;` turns the count 0 and the error -1 into a uint8_t.
unfoldable pub uart_readbyte : ReadResult → ℕ
uart_readbyte (got b) = b
uart_readbyte nothing_there = 0
uart_readbyte failed = 255

-- `uart_sendbyte` and `uart_sendbytes`: what is given to write. An error is only printed.
unfoldable pub uart_sendbyte : ℕ → List ℕ
uart_sendbyte byte = byte ∷ []

unfoldable pub uart_sendbytes : List ℕ → ℕ → List ℕ
uart_sendbytes buf len = take len buf
