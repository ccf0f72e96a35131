-- ===== src/Fifo/Upper/Leftovers.antt =====
-- Which pipes the server and the client of fifo/doc leave behind.
use linuxapp.Common.{
  ℕ, suc, true, false, if◌then◌else◌, some, ◌>>=◌, List, [], ◌∷◌, ◌++◌, length, drop, map, All, ◌≡◌,
  ◌⊎◌, refl, sym, ap, ◌∙◌, inl, inr, Bool-cases,
}
use linuxapp.Fifo.Upper.{Message, text_size, message_size, message_bytes, message_at, upper}
use linuxapp.Fifo.Upper.Messages.{upper_lem, length-upper, length-message}
use linuxapp.Fifo.Upper.Names.{Names, IsDirectory, server_fifo, client_fifo}
use linuxapp.Fifo.Upper.Lives.{
  Event, enters, leaves, arrives, End, entered, removed, given_up, server_loop, server_main,
  client_main,
}
use linuxapp.Fifo.Upper.Sent.{IsWhole, senders, message_fills, sent_by}

module _ (D : Names) (laws : IsDirectory D) where
  open D use {State, exists, mkfifo, opens, unlink}

  entered_lem : (pid : ℕ) (s : State) → exists server_fifo (entered D pid s) ≡ exists server_fifo s
  entered_lem pid s = elim (Bool-cases (exists (client_fifo pid) s)) [
    | inl old ↦ rw (laws.made_before (client_fifo pid) s old, entered) refl
    | inr free ↦
        let (t, e, made, others) = laws.made (client_fifo pid) s free in
        rw (e, entered) (others server_fifo (λ same. cc))
  ]

  -- How the server comes to its end: after all messages, or at the first client whose pipe is not
  -- there.
  data IsOver (who : List ℕ) (end : End D) : Type 0 where
    finished :
        end.code ≡ 0
        → exists server_fifo end.names ≡ false
        → map (λ a. a.0) end.answers ≡ who
        → IsOver who end
    stopped :
        (pid : ℕ) (rest : List ℕ)
        → end.code ≡ 1
        → exists server_fifo end.names ≡ true
        → exists (client_fifo pid) end.names ≡ false
        → who ≡ map (λ a. a.0) end.answers ++ pid ∷ rest
        → IsOver who end

  one_more :
      (pid : ℕ) (answer : List ℕ) (who : List ℕ) (end : End D)
      → IsOver who end
      → IsOver (pid ∷ who) (record end { answers = (pid, answer) ∷ end.answers })
  one_more pid answer who end (finished code gone all) = finished code gone (ap (◌∷◌ pid) all)
  one_more pid answer who end (stopped q rest code left none_there some_more) =
      stopped q rest code left none_there (ap (◌∷◌ pid) some_more)

  module _ (toupper : ℕ → ℕ) where
    server_reads :
        (b : ℕ) (bytes msg : List ℕ) (es : List Event) (s : State) (m : Message) (text : List ℕ)
        → message_at (b ∷ bytes ++ drop (suc (length bytes)) msg) ≡ some m
        → upper toupper m.text ≡ some text
        → (let answer = message_bytes (record m { text = text }) in
            server_loop D toupper (arrives (b ∷ bytes) ∷ es) msg s ≡ (
              if opens (client_fifo m.client_pid) s
              then (server_loop D toupper es answer s >>= λ end.
                  some (record end { answers = (m.client_pid, answer) ∷ end.answers }))
              else some (given_up D s)))
    unfolding server_loop
    server_reads b bytes msg es s m text e1 e2 = rw e1 (rw e2 refl)

    loop_lem :
        (es : List Event) (msg : List ℕ) (s : State)
        → All IsWhole es
        → length msg ≡ message_size
        → exists server_fifo s ≡ true
        → (end : End D) × (server_loop D toupper es msg s ≡ some end) × IsOver (senders es) end
    unfolding server_loop message_bytes
    loop_lem [] msg s h size there =
        (removed D s, refl, finished refl (laws.unlinked server_fifo s) refl)
    loop_lem (enters pid ∷ es) msg s (h, hs) size there =
        loop_lem es msg (entered D pid s) hs size (entered_lem pid s ∙ there)
    loop_lem (leaves pid ∷ es) msg s (h, hs) size there =
        loop_lem es msg (unlink (client_fifo pid) s) hs size
          (laws.unlinked_other (client_fifo pid) server_fifo s (λ same. cc) ∙ there)
    loop_lem (arrives [] ∷ es) msg s (sent, hs) size there = let e = sent.same in cc
    loop_lem (arrives (b ∷ bytes) ∷ es) msg s (sent, hs) size there =
        let m = sent.message in
        let text : List ℕ = map toupper sent.chars ++ 0 ∷ sent.junk in
        let e2 : upper toupper m.text ≡ some text =
          rw sent.spelled (upper_lem toupper sent.chars sent.junk sent.is_text) in
        let reads = server_reads b bytes msg es s m text (message_fills b bytes msg sent size) e2 in
        elim (Bool-cases (exists (client_fifo m.client_pid) s)) [
          | inl there_too ↦
              let whole : length text ≡ text_size =
                length-upper toupper sent.chars sent.junk
                ∙ sym (ap length sent.spelled)
                ∙ sent.whole in
              let (end, e, over) =
                loop_lem es (message_bytes (record m { text = text })) s hs
                  (length-message (record m { text = text }) whole sent.fill) there in
              (
                record end {
                  answers = (m.client_pid, message_bytes (record m { text = text })) ∷ end.answers;
                },
                reads ∙ rw (laws.opened (client_fifo m.client_pid) s ∙ there_too) (rw e refl),
                rw (sent_by b bytes es sent) (one_more m.client_pid _ (senders es) end over),
              )
          | inr gone ↦ (
            given_up D s,
            reads ∙ rw (laws.opened (client_fifo m.client_pid) s ∙ gone) refl,
            stopped m.client_pid (senders es) refl there gone (sent_by b bytes es sent),
          )
        ]

    over_lem :
        (es : List Event) (msg : List ℕ) (s : State)
        → All IsWhole es
        → length msg ≡ message_size
        → exists server_fifo s ≡ false
        → (end : End D) × (server_main D toupper es msg s ≡ some end) × IsOver (senders es) end
    unfolding server_main
    over_lem es msg s h size free =
        let (t, e, made, others) = laws.made server_fifo s free in
        let (end, runs, over) = loop_lem es msg t h size made in
        (end, rw (e, server_main) (rw (laws.opened server_fifo t ∙ made) runs), over)

    server_again :
        (es : List Event) (msg : List ℕ) (s : State)
        → exists server_fifo s ≡ true
        → server_main D toupper es msg s ≡ some (given_up D s)
    unfolding server_main
    server_again es msg s old = rw (laws.made_before server_fifo s old, server_main) refl

  client_alone :
      (pid : ℕ) (s : State)
      → exists (client_fifo pid) s ≡ false
      → exists server_fifo s ≡ false
      → (t : State) × (client_main D pid s ≡ (1, t)) × (exists (client_fifo pid) t ≡ true)
  unfolding client_main
  client_alone pid s free no_server =
      let (t, e, made, others) = laws.made (client_fifo pid) s free in
      let none_there = laws.opened server_fifo t ∙ others server_fifo (λ same. cc) ∙ no_server in
      (t, rw (e, client_main) (rw none_there refl), made)

  client_again :
      (pid : ℕ) (s : State) → exists (client_fifo pid) s ≡ true → client_main D pid s ≡ (1, s)
  unfolding client_main
  client_again pid s old = rw (laws.made_before (client_fifo pid) s old, client_main) refl

  module _ (toupper : ℕ → ℕ) where
    -- Where neither the server's pipe nor that of client pid is there, and whole messages arrive:
    -- the server either has answered all of them in order, exits with 0 and removes its pipe, or
    -- has answered those before one whose client's pipe is not there and exits with 1, and then no
    -- later server comes past its start. The client without the server exits with 1, and so does
    -- any later one with its number, since its pipe is still there.
    pub leftovers_lem :
        (es later : List Event) (msg msg' : List ℕ) (pid : ℕ) (s : State)
        → All IsWhole es
        → length msg ≡ message_size
        → exists server_fifo s ≡ false
        → exists (client_fifo pid) s ≡ false
        → (end : End D) × (t : State) × (server_main D toupper es msg s ≡ some end)
          × (((end.code ≡ 0)
                × (exists server_fifo end.names ≡ false)
                × (map (λ a. a.0) end.answers ≡ senders es))
              ⊎ ((gone : ℕ) × (rest : List ℕ) × (end.code ≡ 1)
                  × (exists (client_fifo gone) end.names ≡ false)
                  × (senders es ≡ map (λ a. a.0) end.answers ++ gone ∷ rest)
                  × (server_main D toupper later msg' end.names ≡ some (given_up D end.names))))
          × (client_main D pid s ≡ (1, t))
          × (client_main D pid t ≡ (1, t))
    leftovers_lem es later msg msg' pid s h size no_server no_client =
        let (end, runs, over) = over_lem toupper es msg s h size no_server in
        let (t, alone, left) = client_alone pid s no_client no_server in
        (
          end,
          t,
          runs,
          elim over [
            | finished code gone all ↦ inl (code, gone, all)
            | stopped gone rest code stays none_there some_more ↦ inr (
              gone,
              rest,
              code,
              none_there,
              some_more,
              server_again toupper later msg' end.names stays,
            )
          ],
          alone,
          client_again pid t left,
        )
