-- ===== src/Fifo/Upper.antt =====
-- iMX287Learn/fifo/doc/client.c and server.c: a client sends a message through the server's pipe,
-- and the server answers through the client's with the text in upper case, from where both are
-- open. `none` is an error of a call, a message that does not come whole, or a text without its
-- end.
pub mod Conversation
pub mod Names
pub mod Messages
pub mod Lives
pub mod Sent
pub mod Leftovers
use linuxapp.Common.{
  ℕ, zero, suc, ◌+◌, ◌*◌, ◌/◌, ◌%◌, ◌^◌, ◌≤◌, ◌<◌, ◌==◌, ltb, if◌then◌else◌, Option, none, some,
  ◌>>=◌, List, [], ◌∷◌, ◌++◌, map, length, take, drop, ◌≡◌, ◌≢◌, refl, ap, ap₂, sym, ◌∙◌, arith,
  inl, inr, Bool-cases, ==_iff, take-append, length-append, length-map,
}
use mathlib.Core.List.{append_assoc}
use linuxapp.Common.CString.{c_string, c_string_lem, IsText, IsText-append}
use linuxapp.Common.Decimal.{decimal}
use linuxapp.Common.Channel.{Pipe, IsFifo, IsWorking, passes_through}

-- `struct message`: a pid of four bytes, the 21 characters of its text, and three bytes that fill
-- it up to a multiple of four.
pub record Message : Type 0 where
  pub client_pid : ℕ
  pub text : List ℕ
  pub padding : List ℕ

abbrev pub text_size : ℕ
text_size = 21

-- sizeof(message)
abbrev pub message_size : ℕ
message_size = 28

-- A message in memory, the lowest byte of its pid first, and the message that bytes are.
unfoldable pub message_bytes : Message → List ℕ
message_bytes m =
    m.client_pid % 256
    ∷ m.client_pid / 2 ^ 8 % 256
    ∷ m.client_pid / 2 ^ 16 % 256
    ∷ m.client_pid / 2 ^ 24 % 256
    ∷ (m.text ++ m.padding)

unfoldable pub message_at : List ℕ → Option Message
message_at (a ∷ b ∷ c ∷ d ∷ rest) = some (record {
  client_pid = a + b * 2 ^ 8 + c * 2 ^ 16 + d * 2 ^ 24;
  text = take text_size rest;
  padding = drop text_size rest;
})
message_at _ = none

-- `Hello from ` and the number: what sprintf writes, without its end.
abbrev pub hello_from : List ℕ
hello_from = b'H' ∷ b'e' ∷ b'l' ∷ b'l' ∷ b'o' ∷ b' ' ∷ b'f' ∷ b'r' ∷ b'o' ∷ b'm' ∷ b' ' ∷ []

abbrev pub hello_text : ℕ → List ℕ
hello_text pid = hello_from ++ decimal 10 pid

-- The client's message: behind the text stand its end and what the stack held.
unfoldable pub client_message : ℕ → List ℕ → List ℕ → Message
client_message pid junk padding = record {
  client_pid = pid;
  text = hello_text pid ++ 0 ∷ junk;
  padding = padding;
}

module _ (toupper : ℕ → ℕ) where
  -- The server's inner loop, up to the 0.
  unfoldable pub upper : List ℕ → Option (List ℕ)
  upper [] = none
  upper (c ∷ cs) =
      let rest = upper cs in
      if c == 0 then some (c ∷ cs) else rest >>= λ more. some (toupper c ∷ more)

  module _ (P Q : Pipe) where
    -- A round of the server's loop, from its pipe to the client's.
    unfoldable pub server_round : P.State → Q.State → Option (P.State × Q.State)
    server_round s r = do
      (bytes, s') ← P.read s message_size
      m ← message_at bytes
      text ← upper m.text
      (n, r') ← Q.write r (message_bytes (record m { text = text }))
      some (s', r')

    -- `main` of client.c with one round of the server's between its write and its read: the text
    -- that it prints as received.
    unfoldable pub converse :
        ℕ → List ℕ → List ℕ → P.State → Q.State → Option (List ℕ × P.State × Q.State)
    converse pid junk padding s r = do
      (n, s') ← P.write s (message_bytes (client_message pid junk padding))
      (s'', r') ← server_round s' r
      (bytes, r'') ← Q.read r' message_size
      m ← message_at bytes
      received ← c_string m.text
      some (received, s'', r'')
