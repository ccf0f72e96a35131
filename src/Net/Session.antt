-- ===== src/Net/Session.antt =====
-- iMX287Learn/net/cs0/client.c and server.c at the two ends of one connection, each direction of
-- which is a stream of bytes. The client's read waits for the server's answer, so their rounds
-- alternate. An error of a call is a size of -1, and leaves the stream as it was. What the server
-- prints itself is left out.
use linuxapp.Common.{
  ℕ, ◌+◌, ◌≤◌, ◌<◌, ltb, Bool, true, false, if◌then◌else◌, Option, none, some, List, [], ◌∷◌, ◌++◌,
  map, length, ◌≡◌, refl, arith, length-append, lt→ltb, ap₂,
}
use linuxapp.Common.Int.{ℤ, pos, negsuc}
use linuxapp.Common.Channel.{Pipe, IsFifo, IsWorking, passes_through}
use linuxapp.Common.Decimal.{decimal, length-decimal, leading_number, leading_number-decimal}
use linuxapp.Net.{is_zero}
use linuxapp.Net.Client.{Turn, client_turn}

-- The rest of the server's text, with its end.
abbrev altogether : List ℕ
altogether =
    b'b' ∷ b'y' ∷ b't' ∷ b'e' ∷ b's' ∷ b' ' ∷ b'a' ∷ b'l' ∷ b't' ∷ b'o' ∷ b'g' ∷ b'e' ∷ b't' ∷ b'h'
    ∷ b'e' ∷ b'r' ∷ 10 ∷ 0 ∷ []

-- The bytes that the server writes after a read of so many; a long has at most nineteen digits.
unfoldable reply : ℤ → List ℕ
reply (pos n) = decimal 19 n ++ b' ' ∷ altogether
reply (negsuc n) = b'-' ∷ (decimal 19 (n + 1) ++ b' ' ∷ altogether)

-- The size of both buffers.
abbrev buffer_size : ℕ
buffer_size = 1024

abbrev size_of {ℓ} : {S : Type ℓ} → Option (List ℕ × S) → ℤ
size_of none = negsuc 0
size_of (some (bytes, _)) = pos (length bytes)

abbrev bytes_of {ℓ} : {S : Type ℓ} → Option (List ℕ × S) → List ℕ
bytes_of none = []
bytes_of (some (bytes, _)) = bytes

-- The stream after a call.
abbrev after {ℓ κ} : {A : Type ℓ} {S : Type κ} → Option (A × S) → S → S
after none s = s
after (some (_, t)) s = t

module _ (P Q : Pipe) where
  -- A round of the server's `process_client_handle`: whether it goes on, and the streams to and
  -- from it.
  unfoldable server_turn : P.State → Q.State → Bool × P.State × Q.State
  unfolding reply
  server_turn s r =
      let got = P.read s buffer_size in
      if is_zero (size_of got)
      then (false, after got s, r)
      else (true, after got s, after (Q.write r (reply (size_of got))) r)

  -- A round of the client's with a line from the keyboard: what it shows, and the streams.
  unfoldable exchange : List ℕ → P.State → Q.State → List (List ℕ) × P.State × Q.State
  unfolding server_turn client_turn
  exchange line s r =
      if ltb 0 (length line)
      then (let (on, s', r') = server_turn (after (P.write s line) s) r in
          let answer = Q.read r' buffer_size in
          let turn : Turn = record { line = line; reply = bytes_of answer } in
          ((client_turn turn).1, s', after answer r'))
      else ([], s, r)

  unfoldable pub session : List (List ℕ) → P.State → Q.State → List (List ℕ) × P.State × Q.State
  unfolding exchange
  session [] s r = ([], s, r)
  session (line ∷ lines) s r =
      let (shown, s', r') = exchange line s r in
      let (more, s'', r'') = session lines s' r' in (shown ++ more, s'', r'')

-- Lines that leave room for a 0 in the buffer, where the server's print of it ends.
unfoldable pub AllLines : List (List ℕ) → Type 0
AllLines [] = Unit
AllLines (line ∷ lines) = (0 < length line) × (length line < buffer_size) × AllLines lines

length-reply : (n : ℕ) → length (reply (pos n)) ≤ 38
unfolding reply
length-reply n =
    omega (arith, length-append (decimal 19 n) (b' ' ∷ altogether), length-decimal 19 n)

reply_not_empty : (n : ℕ) → 0 < length (reply (pos n))
unfolding reply
reply_not_empty n = omega (arith, length-append (decimal 19 n) (b' ' ∷ altogether))

size_not_zero : (n : ℕ) → 0 < n → is_zero (pos n) ≡ false
size_not_zero n h = ground arith

-- What the user sees.
unfoldable pub answers : List (List ℕ) → List (List ℕ)
unfolding reply
answers lines = map (λ line. reply (pos (length line))) lines

answers_numbers :
    (lines : List (List ℕ))
    → AllLines lines
    → map (leading_number 0) (answers lines) ≡ map length lines
unfolding AllLines answers reply
answers_numbers [] h = refl
answers_numbers (line ∷ lines) (some_there, fits, more) =
    ap₂ (◌∷◌) (leading_number-decimal 19 (length line) altogether (omega (arith, fits)))
      (answers_numbers lines more)

module _ (P Q : Pipe) (to_server : IsFifo P) (up : IsWorking P) (to_client : IsFifo Q)
    (down : IsWorking Q) where
  -- A line goes to the server, its size comes back, and nothing is left on the way.
  exchange_lem :
      (line : List ℕ) (s : P.State) (r : Q.State)
      → 0 < length line
      → length line ≤ buffer_size
      → P.contents s ≡ []
      → Q.contents r ≡ []
      → (t : P.State) × (u : Q.State) × (exchange P Q line s r
          ≡ (reply (pos (length line)) ∷ [], t, u))
        × (P.contents t ≡ [])
        × (Q.contents u ≡ [])
  unfolding exchange server_turn client_turn
  exchange_lem line s r some_there fits empty clear =
      let (n, s', t, sent, got, taken) =
        passes_through P to_server up s line buffer_size empty some_there fits (omega arith) in
      let (m, r', u, answered, shown, done) =
        passes_through Q to_client down r (reply (pos (length line))) buffer_size clear
          (reply_not_empty (length line)) (omega (arith, length-reply (length line)))
          (omega arith) in
      (
        t,
        u,
        rw (lt→ltb 0 (length line) some_there) (
            rw sent
              (rw got (rw (size_not_zero (length line) some_there) (rw answered (rw shown refl))))),
        taken,
        done,
      )

  session_from :
      (lines : List (List ℕ)) (s : P.State) (r : Q.State)
      → AllLines lines
      → P.contents s ≡ []
      → Q.contents r ≡ []
      → (t : P.State) × (u : Q.State) × (session P Q lines s r ≡ (answers lines, t, u))
        × (P.contents t ≡ [])
        × (Q.contents u ≡ [])
  unfolding session answers AllLines
  session_from [] s r h empty clear = (s, r, refl, empty, clear)
  session_from (line ∷ lines) s r (some_there, fits, more) empty clear =
      let (s', r', e, empty', clear') =
        exchange_lem line s r some_there (omega (arith, fits)) empty clear in
      let (t, u, e2, taken, done) = session_from lines s' r' more empty' clear' in
      (t, u, rw e (rw e2 refl), taken, done)

  -- Over two streams that meet their laws, so that a read takes all that the other end has written,
  -- both empty, every sequence of lines of 1 to 1023 bytes from the keyboard is answered in order:
  -- the client shows one text for each line, which is the server's text for the line's length, its
  -- number in decimal digits reads as that length, and both streams are empty again at the end.
  session_lem :
      (lines : List (List ℕ)) (s : P.State) (r : Q.State)
      → AllLines lines
      → P.contents s ≡ []
      → Q.contents r ≡ []
      → (t : P.State) × (u : Q.State) × (session P Q lines s r ≡ (answers lines, t, u))
        × (map (leading_number 0) (answers lines) ≡ map length lines)
        × (P.contents t ≡ [])
        × (Q.contents u ≡ [])
  session_lem lines s r h empty clear =
      let (t, u, e, taken, done) = session_from lines s r h empty clear in
      (t, u, e, answers_numbers lines h, taken, done)
