-- ===== src/MsgQueue/Programs.antt =====
-- The programs on the queue: iMX287Learn/msgqueue/mainsrc0/main.c sends, mainsrc1/main.c receives,
-- and mainsrc3/main.c does the one and its thread (loop/mloop.c) the other.
use linuxapp.Common.{ℕ, Bool, if◌then◌else◌, List, [], ◌∷◌, ◌++◌, Option, none, some, ◌>>=◌}
use linuxapp.Common.Int.{ℤ, pos}
use linuxapp.MsgQueue.{QueueInfo, Message, queue_create, queue_isexist, msg_snd, msg_rcv}

-- `Hello,Message Queue.` and `Hello,Message Queue3.` in memory.
abbrev hello : List ℕ
hello =
    b'H' ∷ b'e' ∷ b'l' ∷ b'l' ∷ b'o' ∷ b',' ∷ b'M' ∷ b'e' ∷ b's' ∷ b's' ∷ b'a' ∷ b'g' ∷ b'e' ∷ b' '
    ∷ b'Q' ∷ b'u' ∷ b'e' ∷ b'u' ∷ b'e' ∷ []

abbrev hello0 : List ℕ
hello0 = hello ++ b'.' ∷ 0 ∷ []

abbrev hello3 : List ℕ
hello3 = hello ++ b'3' ∷ b'.' ∷ 0 ∷ []

-- MSGID_TEST of mainsrc0, MSGKEY, and MSG_KEY_xx and MSGID_FUNC1 of mainsrc3/config.h.
abbrev msgid_test : ℕ
msgid_test = 1

abbrev msgkey : ℕ
msgkey = 183515

abbrev msg_key_xx : ℕ
msg_key_xx = 15152

abbrev msgid_func1 : ℕ
msgid_func1 = 1

-- The start of mainsrc0: `testqueue` is what stood on the stack.
unfoldable sender_start : ℤ → ℤ → QueueInfo → Option QueueInfo
unfolding queue_create
sender_start found made testqueue = do (res, q) ← queue_create found made testqueue; some q

-- Its round.
unfoldable sender_round : (ℤ × List ℕ → ℤ) → Option (ℤ × List ℕ)
unfolding msg_snd
sender_round msgsnd = msg_snd msgsnd msgid_test hello0

-- The start of mainsrc1.
unfoldable receiver_start : ℤ → QueueInfo
unfolding queue_isexist
receiver_start found = record { key = pos msgkey; fd = queue_isexist found }

-- `app_main_init` of mainsrc3's thread.
unfoldable mloop_start : ℤ → QueueInfo
unfolding queue_isexist
mloop_start found = record { key = pos msg_key_xx; fd = queue_isexist found }

-- A round of either: the message that is printed.
unfoldable receiver_round : ℤ × List ℕ → Option Message
unfolding msg_rcv
receiver_round delivered = do (msg, bytes) ← msg_rcv delivered; some msg

-- `threadload_mloop1`, by whether pthread_create answers 0.
unfoldable threadload_mloop1 : Bool → Option (Unit {0})
threadload_mloop1 created = if created then some tt else none

-- The start of mainsrc3, and its round.
unfoldable both_start : ℤ → ℤ → ℤ → Bool → Option QueueInfo
unfolding queue_create threadload_mloop1
both_start unset found made created = do
  (res, q) ← queue_create found made (record { key = pos msg_key_xx; fd = unset })
  _ ← threadload_mloop1 created
  some q

unfoldable both_round : (ℤ × List ℕ → ℤ) → Option (ℤ × List ℕ)
unfolding msg_snd
both_round msgsnd = msg_snd msgsnd msgid_func1 hello3
