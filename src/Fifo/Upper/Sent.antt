-- ===== src/Fifo/Upper/Sent.antt =====
-- Whole messages that come to the server of fifo/doc, and whose they are.
use linuxapp.Common.{
  ℕ, suc, ◌^◌, ◌<◌, none, some, List, [], ◌∷◌, ◌++◌, length, drop, ◌≡◌, refl, ap, ◌∙◌, arith,
}
use mathlib.Core.List.{append-nil}
use linuxapp.Common.CString.{IsText}
use linuxapp.Common.Channel.{nothing_left}
use linuxapp.Fifo.Upper.{Message, text_size, message_size, message_bytes, message_at}
use linuxapp.Fifo.Upper.Messages.{message_at-message_bytes, length-message}
use linuxapp.Fifo.Upper.Lives.{Event, enters, leaves, arrives}

-- The bytes are a whole message, whose text has its end.
pub record IsSent (bytes : List ℕ) : Type 0 where
  pub message : Message
  pub chars : List ℕ
  pub junk : List ℕ
  pub same : bytes ≡ message_bytes message
  pub small : message.client_pid < 2 ^ 32
  pub spelled : message.text ≡ chars ++ 0 ∷ junk
  pub is_text : IsText chars
  pub whole : length message.text ≡ text_size
  pub fill : length message.padding ≡ 3

abbrev pub IsWhole : Event → Type 0
IsWhole (enters pid) = Unit
IsWhole (leaves pid) = Unit
IsWhole (arrives bytes) = IsSent bytes

-- Whose messages arrive.
abbrev pub senders : List Event → List ℕ
senders [] = []
senders (enters pid ∷ es) = senders es
senders (leaves pid ∷ es) = senders es
senders (arrives bytes ∷ es) = elim (message_at bytes) [
  | none ↦ senders es
  | some m ↦ m.client_pid ∷ senders es
]

-- A message that is as long as the variable fills it.
pub message_fills :
    (b : ℕ) (bytes msg : List ℕ) (sent : IsSent (b ∷ bytes))
    → length msg ≡ message_size
    → message_at (b ∷ bytes ++ drop (suc (length bytes)) msg) ≡ some sent.message
message_fills b bytes msg sent size =
    let same_length : length (b ∷ bytes) ≡ length (message_bytes sent.message) =
      ap length sent.same in
    let long = length-message sent.message sent.whole sent.fill in
    let none_left =
      nothing_left msg (suc (length bytes)) (omega (arith, same_length, long, size)) in
    rw none_left (
      ap message_at (append-nil (b ∷ bytes) ∙ sent.same)
      ∙ message_at-message_bytes sent.message sent.small sent.whole)

pub sent_by :
    (b : ℕ) (bytes : List ℕ) (es : List Event) (sent : IsSent (b ∷ bytes))
    → senders (arrives (b ∷ bytes) ∷ es) ≡ sent.message.client_pid ∷ senders es
sent_by b bytes es sent =
    rw
      (
        ap message_at sent.same ∙ message_at-message_bytes sent.message sent.small sent.whole,
        senders,
      )
      refl
