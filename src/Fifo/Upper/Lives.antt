-- ===== src/Fifo/Upper/Lives.antt =====
-- The whole runs of fifo/doc/server.c and client.c: the pipes that they make and remove. What is
-- read and written on the way is in Fifo.Upper; the results of write and close are not looked at.
use linuxapp.Common.{
  ℕ, suc, if◌then◌else◌, Option, none, some, ◌>>=◌, List, [], ◌∷◌, ◌++◌, length, drop,
}
use linuxapp.Fifo.Upper.{message_bytes, message_at, upper}
use linuxapp.Fifo.Upper.Names.{Names, server_fifo, client_fifo}

-- What happens between the server's calls: a client makes its pipe or removes it, or the server's
-- read gives bytes. Where the list is over, or no bytes are given, no client has the pipe open.
pub data Event : Type 0 where
  enters leaves : ℕ → Event
  arrives : List ℕ → Event

-- An exit code, the answers, each with the client's number, and the names then.
pub record End (D : Names) : Type 0 where
  pub code : ℕ
  pub answers : List (ℕ × List ℕ)
  pub names : D.State

module _ (D : Names) where
  open D use {State, exists, mkfifo, opens, unlink}

  -- A client's part in it.
  abbrev pub entered : ℕ → State → State
  entered pid s = elim (mkfifo (client_fifo pid) s) [ none ↦ s | some t ↦ t ]

  abbrev pub removed : State → End D
  removed s = record { code = 0; answers = []; names = unlink server_fifo s }

  abbrev pub given_up : State → End D
  given_up s = record { code = 1; answers = []; names = s }

  module _ (toupper : ℕ → ℕ) where
    -- The server's loop, with what its variable holds: fewer bytes leave the others as they were.
    unfoldable pub server_loop : List Event → List ℕ → State → Option (End D)
    server_loop [] msg s = some (removed s)
    server_loop (enters pid ∷ es) msg s = server_loop es msg (entered pid s)
    server_loop (leaves pid ∷ es) msg s = server_loop es msg (unlink (client_fifo pid) s)
    server_loop (arrives [] ∷ es) msg s = some (removed s)
    server_loop (arrives (b ∷ bytes) ∷ es) msg s =
        message_at (b ∷ bytes ++ drop (suc (length bytes)) msg) >>= λ m.
        upper toupper m.text >>= λ text.
        let answer = message_bytes (record m { text = text }) in
        let rest = server_loop es answer s in
        if opens (client_fifo m.client_pid) s
        then (rest >>= λ end. some (record end { answers = (m.client_pid, answer) ∷ end.answers }))
        else some (given_up s)

    -- `main` of server.c.
    unfoldable pub server_main : List Event → List ℕ → State → Option (End D)
    unfolding server_loop
    server_main es msg s = elim (mkfifo server_fifo s) [
      | none ↦ some (given_up s)
      | some t ↦ if opens server_fifo t then server_loop es msg t else some (given_up t)
    ]

  -- `main` of client.c: its exit code and the names. At its end it opens its own pipe for the
  -- answer and removes it.
  abbrev pub client_end : ℕ → State → ℕ × State
  client_end pid t = if opens (client_fifo pid) t then (0, unlink (client_fifo pid) t) else (1, t)

  unfoldable pub client_main : ℕ → State → ℕ × State
  client_main pid s = elim (mkfifo (client_fifo pid) s) [
    | none ↦ (1, s)
    | some t ↦ if opens server_fifo t then client_end pid t else (1, t)
  ]
