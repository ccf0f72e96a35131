-- ===== src/MsgQueue/Tests.antt =====
-- Strings of two lengths.
use linuxapp.Common.{if◌then◌else◌, ℕ, List, [], ◌∷◌, ◌++◌, ◌-◌, ◌≡◌, some, ◌>>=◌, replicate, arith}
use linuxapp.MsgQueue.{msg_snd, msg_rcv, text_max}
use linuxapp.Common.CString.{IsText}
use linuxapp.MsgQueue.Transfer.{msg_snd-msg_rcv}
use linuxapp.MsgQueue.{pos, ℤ}
use linuxapp.MsgQueue.{ltb_ℤ}
use linuxapp.MsgQueue.{negsuc}

abbrev hello : List ℕ
hello = b'H' ∷ b'i' ∷ []

hello-IsText : IsText hello
unfolding IsText
hello-IsText = (omega arith, (omega arith, tt))

-- EINVAL for a type below 1.
abbrev takes_positive : ℤ × List ℕ → ℤ
takes_positive (type_id, bytes) = if ltb_ℤ (pos 0) type_id then pos 0 else negsuc 0

msg_snd-msg_rcv_example :
    (msg_snd takes_positive 1 (hello ++ 0 ∷ 7 ∷ []) >>= msg_rcv)
    ≡ some (record { type_id = pos 1; text = hello ++ replicate (text_max - 2) 0 }, 6)
msg_snd-msg_rcv_example = msg_snd-msg_rcv takes_positive 1 hello (7 ∷ []) hello-IsText
