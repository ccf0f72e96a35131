-- ===== src/Fifo/Upper/Conversation.antt =====
-- A client's message, through the server and back.
use linuxapp.Common.{
  ℕ, zero, suc, ◌+◌, ◌/◌, ◌%◌, ◌^◌, ◌<◌, ltb, some, List, [], ◌∷◌, ◌++◌, map, length, ◌≡◌, ◌≢◌,
  refl, ◌∙◌, arith, inl, inr, Bool-cases,
}
use linuxapp.Common.CString.{c_string_lem, IsText, IsText-append}
use linuxapp.Common.Decimal.{decimal}
use linuxapp.Common.Channel.{Pipe, IsFifo, IsWorking, passes_through}
use linuxapp.Fifo.Upper.{
  Message, text_size, message_size, message_bytes, hello_from, hello_text, client_message,
  server_round, converse,
}
use linuxapp.Fifo.Upper.Messages.{message_at-message_bytes, upper_lem, length-upper, length-message}

decimal-IsText : (k n : ℕ) → IsText (decimal k n)
unfolding decimal IsText
decimal-IsText zero n = tt
decimal-IsText (suc k) n = elim (Bool-cases (ltb n 10)) [
  | inl e ↦ rw e ((λ z. omega (arith, z)), tt)
  | inr e ↦ rw e (
      IsText-append (decimal k (n / 10)) ((b'0' + n % 10) ∷ []) (decimal-IsText k (n / 10))
        ((λ z. omega (arith, z)), tt))
]

module _ (toupper : ℕ → ℕ) (no_end : (c : ℕ) → c ≢ 0 → toupper c ≢ 0) where
  map-IsText : (cs : List ℕ) → IsText cs → IsText (map toupper cs)
  unfolding IsText
  map-IsText [] h = tt
  map-IsText (c ∷ cs) (h, hs) = (no_end c h, map-IsText cs hs)

  hello-IsText : (pid : ℕ) → IsText (hello_text pid)
  unfolding IsText
  hello-IsText pid = IsText-append hello_from (decimal 10 pid) (omega arith) (decimal-IsText 10 pid)

  -- The server's message.
  answer : ℕ → List ℕ → List ℕ → Message
  answer pid junk padding = record {
    client_pid = pid;
    text = map toupper (hello_text pid) ++ 0 ∷ junk;
    padding = padding;
  }

  answer_whole :
      (pid : ℕ) (junk : List ℕ)
      → length (hello_text pid ++ 0 ∷ junk) ≡ text_size
      → length (map toupper (hello_text pid) ++ 0 ∷ junk) ≡ text_size
  answer_whole pid junk whole = length-upper toupper (hello_text pid) junk ∙ whole

  module _ (P Q : Pipe) (to_server : IsFifo P) (up : IsWorking P) (to_client : IsFifo Q)
      (down : IsWorking Q) where
    -- Over two empty pipes that meet their laws, where toupper makes no character the end of a
    -- text: a client whose text fits, with the end and what the stack held behind it, is answered,
    -- and what it prints is its own text with every character in upper case. Both pipes are empty
    -- again.
    pub converse_lem :
        (pid : ℕ) (junk padding : List ℕ) (s : P.State) (r : Q.State)
        → pid < 2 ^ 32
        → length (hello_text pid ++ 0 ∷ junk) ≡ text_size
        → length padding ≡ 3
        → P.contents s ≡ []
        → Q.contents r ≡ []
        → (t : P.State) × (u : Q.State) × (converse toupper P Q pid junk padding s r
            ≡ some (map toupper (hello_text pid), t, u))
          × (P.contents t ≡ [])
          × (Q.contents u ≡ [])
    unfolding converse server_round client_message answer
    converse_lem pid junk padding s r small whole fill empty clear =
        let m : Message = client_message pid junk padding in
        let m' : Message = answer pid junk padding in
        let whole' = answer_whole pid junk whole in
        let size = length-message m whole fill in
        let size' = length-message m' whole' fill in
        let (n, s', t, sent, got, taken) =
          passes_through P to_server up s (message_bytes m) message_size empty (omega (arith, size))
            (omega (arith, size)) (omega arith) in
        let (k, r', u, answered, shown, done) =
          passes_through Q to_client down r (message_bytes m') message_size clear
            (omega (arith, size')) (omega (arith, size')) (omega arith) in
        (
          t,
          u,
          rw sent (
              rw got (
                rw (message_at-message_bytes m small whole) (
                  rw (upper_lem toupper (hello_text pid) junk (hello-IsText pid)) (
                    rw answered (
                      rw shown (
                        rw (message_at-message_bytes m' small whole') (
                          rw
                            (c_string_lem (map toupper (hello_text pid)) junk
                              (map-IsText (hello_text pid) (hello-IsText pid)))
                            refl))))))),
          taken,
          done,
        )
