-- ===== src/MsgQueue.antt =====
-- iMX287Learn/msgqueue/queuesrc/queue.c and queue.h: messages on a System V message queue, on a
-- machine whose long has four bytes. What msgget, msgsnd and msgrcv answer are arguments. `none` is
-- the end of the program where an error exits, and an access outside an array.
pub mod Transfer
mod Programs
mod Tests
use linuxapp.Common.Int.{is_negative, ℤ, pos, negsuc, ltb_ℤ}
use linuxapp.Common.{
  ℕ, zero, suc, ◌+◌, ◌-◌, ◌==◌, leb, Bool, true, false, if◌then◌else◌, Option, none, some, ◌>>=◌,
  List, [], ◌∷◌, ◌++◌, length, take, replicate,
}
use linuxapp.Common.CString.{strlen}
use linuxapp.Common.{ltb}
use linuxapp.Common.{◌%◌}
use linuxapp.Common.{◌^◌}

-- `struct QUEUEINFO`
pub record QueueInfo : Type 0 where
  pub key : ℤ
  pub fd : ℤ

-- The bytes of the array `text`.
abbrev pub text_max : ℕ
text_max = 512

-- `struct MESSAGE`
pub record Message : Type 0 where
  pub type_id : ℤ
  pub text : List ℕ

abbrev pub is_minus_one : ℤ → Bool
is_minus_one (pos n) = false
is_minus_one (negsuc n) = n == 0

-- `queue_isexist`, with what msgget(key, IPC_EXCL) returns.
unfoldable pub queue_isexist : ℤ → ℤ
queue_isexist found = if is_negative found then negsuc 0 else found

-- `queue_create`: its value and the filled record; `made` is what msgget with IPC_CREAT returns.
unfoldable pub queue_create : ℤ → ℤ → QueueInfo → Option (ℤ × QueueInfo)
unfolding queue_isexist
queue_create found made q =
    if is_minus_one (queue_isexist found)
    then (if is_negative q.key
        then none
        else if is_negative made
        then none
        else some (pos 0, record q { fd = made }))
    else some (pos 0, record q { fd = queue_isexist found })

-- The array after memset and the memcpy of n bytes, which must not leave it.
unfoldable pub copied : ℕ → List ℕ → Option (List ℕ)
copied n buff = if leb n text_max then some (take n buff ++ replicate (text_max - n) 0) else none

-- `msg.type = msgid`: an unsigned int, which a long of four bytes takes for negative from 2 ^ 31
-- on.
abbrev pub as_long : ℕ → ℤ
as_long n = if ltb (n % 2 ^ 32) (2 ^ 31) then pos (n % 2 ^ 32) else negsuc (2 ^ 32 - 1 - n % 2 ^ 32)

-- `msg_snd`, with what msgsnd answers to a message: the message that it takes. Its size is
-- `4+strlen(msg.text)`; msgsnd reads that many bytes of the text, all inside the array. A negative
-- answer ends the program.
unfoldable pub msg_snd : (ℤ × List ℕ → ℤ) → ℕ → List ℕ → Option (ℤ × List ℕ)
unfolding strlen copied
msg_snd msgsnd msgid buff = do
  n ← strlen buff
  text ← copied n buff
  m ← strlen text
  let sent : ℤ × List ℕ = (as_long msgid, take (4 + m) text)
  if leb (4 + m) text_max then (if is_negative (msgsnd sent) then none else some sent) else none

-- `msg_rcv` of a message that msgrcv delivers: the filled structure and the number of bytes. The
-- size given to msgrcv is the whole structure's, 516, so longer messages are refused (an error,
-- which exits), and those of 513 to 516 bytes leave the array.
unfoldable pub msg_rcv : ℤ × List ℕ → Option (Message × ℕ)
msg_rcv (msgid, sent) =
    if leb (length sent) text_max
    then some (
      record { type_id = msgid; text = sent ++ replicate (text_max - length sent) 0 },
      length sent,
    )
    else none
