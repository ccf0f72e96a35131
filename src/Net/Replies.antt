-- ===== src/Net/Replies.antt =====
-- What a client gets, and what becomes of the process that served it.
use linuxapp.Common.{true, false, some, List, [], ◌∷◌, ◌++◌, ◌≡◌, refl}
use linuxapp.Common.Int.{ℤ, pos, ltb_ℤ}
use linuxapp.Net.{Process, Round, is_zero, process_client_handle, serve_round, serve}

-- No read says that the client is gone.
unfoldable pub AllNonzero : List ℤ → Type 0
AllNonzero [] = Unit
AllNonzero (n ∷ ns) = (is_zero n ≡ false) × AllNonzero ns

-- As accept does on a descriptor that is closed, it fails.
unfoldable pub AllRefused : List Round → Type 0
AllRefused [] = Unit
AllRefused (r ∷ rs) = (ltb_ℤ (r.accepted false) (pos 0) ≡ true) × AllRefused rs

handle_lem :
    (sizes later : List ℤ)
    → AllNonzero sizes
    → process_client_handle (sizes ++ pos 0 ∷ later) ≡ some sizes
unfolding process_client_handle AllNonzero
handle_lem [] later h = refl
handle_lem (n ∷ ns) later (h, hs) = rw h (rw (handle_lem ns later hs) refl)

-- The child behind its client, which has closed the listening socket.
abbrev pub child : List ℤ → Process
child clients = record { ended = false; listening = false; clients = clients }

refused_lem :
    (rs : List Round) (clients : List ℤ)
    → AllRefused rs
    → serve rs (child clients) ≡ some ([], child clients)
unfolding serve serve_round AllRefused
refused_lem [] clients h = refl
refused_lem (r ∷ rs) clients (h, hs) = rw h (rw (refused_lem rs clients hs) refl)

-- A child that accepts a client answers each of its reads with the size, in order, until the client
-- is gone. Whatever else the system answers in any number of rounds after that, as long as accept
-- fails on a closed socket: the child sends nothing more, keeps the client's socket open, and does
-- not come to an end.
pub child_serves :
    (r : Round) (sizes later clients : List ℤ) (rs : List Round)
    → ltb_ℤ (r.accepted true) (pos 0) ≡ false
    → is_zero r.pid ≡ true
    → AllNonzero sizes
    → r.sizes ≡ sizes ++ pos 0 ∷ later
    → AllRefused rs
    → serve (r ∷ rs) (record { ended = false; listening = true; clients = clients })
      ≡ some (sizes ++ [], child (r.accepted true ∷ clients))
unfolding serve serve_round
child_serves r sizes later clients rs accepted forked nonzero sent refused = rw accepted (
    rw forked (
      rw sent (
        rw (handle_lem sizes later nonzero)
          (rw (refused_lem rs (r.accepted true ∷ clients) refused) refl))))
