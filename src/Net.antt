-- ===== src/Net.antt =====
-- iMX287Learn/net/cs0/server.c: a server that forks a process for each client. What accept, fork
-- and read answer are arguments; `none` is a run that is still waiting for an answer.
pub mod Replies
pub mod Client
pub mod Session
mod Tests
use linuxapp.Common.Int.{is_negative, ℤ, pos, negsuc, pos_part, neg_part, ltb_ℤ}
use linuxapp.Common.{
  ℕ, ◌+◌, ◌==◌, Bool, true, false, if◌then◌else◌, Option, none, some, ◌>>=◌, List, [], ◌∷◌, ◌++◌,
}

-- A process of the program: its open sockets, and whether it has come to an end.
pub record Process : Type 0 where
  pub ended : Bool
  pub listening : Bool
  pub clients : List ℤ

abbrev pub is_zero : ℤ → Bool
is_zero n = pos_part n + neg_part n == 0

-- `process_client_handle`, by the sizes that read answers: the numbers that it sends back. It ends
-- at the first 0; an error, -1, is sent back like a size.
unfoldable pub process_client_handle : List ℤ → Option (List ℤ)
process_client_handle [] = none
process_client_handle (size ∷ sizes) =
    let rest = process_client_handle sizes in
    if is_zero size then some [] else rest >>= λ replies. some (size ∷ replies)

-- The answers of one round of main's loop; accept's by whether its socket is open.
pub record Round : Type 0 where
  pub accepted : Bool → ℤ
  pub pid : ℤ
  pub sizes : List ℤ

-- One round of main's loop. After its client the child goes on with the loop, as the source has it.
unfoldable pub serve_round : Round → Process → Option (List ℤ × Process)
unfolding process_client_handle
serve_round r p =
    let sc = r.accepted p.listening in
    if ltb_ℤ sc (pos 0)
    then some ([], p)
    else if is_zero r.pid
    then (do
      replies ← process_client_handle r.sizes
      some (replies, record p { listening = false; clients = sc ∷ p.clients }))
    else some ([], p)

-- Rounds of the loop, as long as the process has not come to an end. No branch of the loop leaves
-- it.
unfoldable pub serve : List Round → Process → Option (List ℤ × Process)
unfolding serve_round
serve [] p = some ([], p)
serve (r ∷ rs) p =
    let further =
      serve_round r p >>= λ (out, p'). serve rs p' >>= λ (rest, p''). some (out ++ rest, p'') in
    if p.ended then some ([], p) else further

-- The start of main, by the answers of socket, bind and listen; `none` is its value -1.
unfoldable pub start : ℤ → ℤ → ℤ → Option Process
start opened bound listened =
    if is_negative opened
    then none
    else if is_negative bound
    then none
    else if is_negative listened
    then none
    else some (record { ended = false; listening = true; clients = [] })
