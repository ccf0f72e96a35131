-- ===== src/Net/Client.antt =====
-- iMX287Learn/net/cs0/client.c: lines from the keyboard go to the server, its replies to the
-- screen. What read answers is an argument: the bytes of a read of the keyboard, empty at its end,
-- and the bytes of the reply; an error is a size of -1, with which nothing can be written.
use linuxapp.Common.Int.{is_negative, ℤ}
use linuxapp.Common.{ℕ, ltb, if◌then◌else◌, Option, none, some, List, [], ◌∷◌, ◌++◌, length}

-- The answers in one round: the keyboard's, and the server's if there was a line.
pub record Turn : Type 0 where
  pub line : List ℕ
  pub reply : List ℕ

-- One round of `process_client_handle`: what is written to the socket and to the screen.
unfoldable pub client_turn : Turn → List (List ℕ) × List (List ℕ)
client_turn t = if ltb 0 (length t.line) then (t.line ∷ [], t.reply ∷ []) else ([], [])

-- `process_client_handle`, as far as it has come: it never ends.
unfoldable client_handle : List Turn → List (List ℕ) × List (List ℕ)
unfolding client_turn
client_handle [] = ([], [])
client_handle (t ∷ turns) =
    let (sent, shown) = client_turn t in
    let (more, others) = client_handle turns in (sent ++ more, shown ++ others)

-- `main` by what socket answers: its value where that fails, else the rounds. The answer of connect
-- is not looked at.
unfoldable main : ℤ → List Turn → Option (List (List ℕ) × List (List ℕ))
unfolding client_handle
main opened turns = if is_negative opened then none else some (client_handle turns)
