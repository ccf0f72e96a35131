-- ===== src/Fifo.antt =====
-- iMX287Learn/fifo: one program writes a greeting into a named pipe once a second, another prints
-- what it reads from it. fifosrc/fifo.c, wfifo/wfifo.c and rfifo/rfifo.c, over a pipe of
-- Common.Channel. `none` is the end of the program, or a read outside of an array.
pub mod Stream
pub mod Bulk
pub mod Upper
pub mod Polled
mod Tests
use linuxapp.Common.Int.{is_negative, ℤ, pos, ltb_ℤ}
use linuxapp.Common.{
  ℕ, ◌+◌, ◌-◌, ltb, Bool, if◌then◌else◌, Option, none, some, ◌>>=◌, List, [], ◌∷◌, ◌++◌, length,
  take,
}
use linuxapp.Common.CString.{strlen, c_string, zeros}
use linuxapp.Common.Channel.{Pipe}
use Prim.Native.String.{String}

-- A call that changes the file system: `system("rm /tmp/fifo")`, and mkfifo with its mode.
pub data FileCall : Type 0 where
  remove : String → FileCall
  mkfifo : String → ℕ → FileCall

-- O_CREAT, which the source gives mkfifo for the mode: 0100, read as octal.
abbrev pub o_creat : ℕ
o_creat = 64

-- `fifo_create`, by whether access finds the file and what mkfifo answers. What it removes does not
-- depend on its argument.
unfoldable pub fifo_create : Bool → ℤ → String → Option (ℤ × List FileCall)
fifo_create existed made pname =
    let calls = (if existed then remove "/tmp/fifo" ∷ [] else []) ++ mkfifo pname o_creat ∷ [] in
    if is_negative made then none else some (pos 0, calls)

-- `fifo_write_open` and `fifo_read_open`, by what open answers.
unfoldable pub fifo_write_open : ℤ → Option ℤ
fifo_write_open res = if is_negative res then none else some res

unfoldable pub fifo_read_open : ℤ → Option ℤ
fifo_read_open res = if is_negative res then none else some res

-- FIFO_APP_NAME
abbrev pub fifoname : String
fifoname = "/tmp/fifo"

-- `wfifo_init`: the pipe is made before the thread that opens it.
unfoldable pub wfifo_init : Bool → ℤ → Bool → Option (List FileCall)
unfolding fifo_create
wfifo_init existed made created = do
  (res, calls) ← fifo_create existed made fifoname
  if created then some calls else none

-- `rfifo_init`, by whether pthread_create answers 0.
unfoldable pub rfifo_init : Bool → Option (Unit {0})
rfifo_init created = if created then some tt else none

-- `Hello,welcome to linux world!`, as it stands in memory.
abbrev pub greeting : List ℕ
greeting =
    b'H' ∷ b'e' ∷ b'l' ∷ b'l' ∷ b'o' ∷ b',' ∷ b'w' ∷ b'e' ∷ b'l' ∷ b'c' ∷ b'o' ∷ b'm' ∷ b'e' ∷ b' '
    ∷ b't' ∷ b'o' ∷ b' ' ∷ b'l' ∷ b'i' ∷ b'n' ∷ b'u' ∷ b'x' ∷ b' ' ∷ b'w' ∷ b'o' ∷ b'r' ∷ b'l'
    ∷ b'd' ∷ b'!' ∷ []

abbrev pub str : List ℕ
str = greeting ++ 0 ∷ []

-- The size of the reader's buffer.
abbrev pub buff_size : ℕ
buff_size = 1024

module _ (P : Pipe) where
  open P use {State, write, read}

  -- `fifo_write`: the number of bytes written, and the pipe.
  unfoldable pub fifo_write : List ℕ → ℕ → State → Option (ℕ × State)
  fifo_write pbuff len s = write s (take len pbuff)

  -- `fifo_read`: the bytes read, and the pipe.
  unfoldable pub fifo_read : ℕ → State → Option (List ℕ × State)
  fifo_read len s = read s len

  -- One round of pthread_wfifo's loop.
  unfoldable pub pthread_wfifo : State → Option State
  unfolding fifo_write
  pthread_wfifo s = do n ← strlen str; (bytes, t) ← fifo_write str n s; some t

  -- One round of pthread_rfifo's loop, with the text that it prints. The buffer is zeroed first.
  unfoldable pub pthread_rfifo : State → Option (List ℕ × State)
  unfolding fifo_read
  pthread_rfifo s = do
    (bytes, t) ← fifo_read buff_size s
    if ltb 0 (length bytes)
        then (do text ← c_string (bytes ++ zeros (buff_size - length bytes)); some (text, t))
        else some ([], t)
