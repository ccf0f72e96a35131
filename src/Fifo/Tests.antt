-- ===== src/Fifo/Tests.antt =====
-- Runs of the programs at concrete turns.
use linuxapp.Fifo.Bulk.{Transfer, transfer, opened, alternate, buffer_size, ten_meg, IsBlocking}
use linuxapp.Common.{
  map, leb, ◌&&◌, if◌then◌else◌, ◌-◌, ◌≢◌, arith, replicate, length, length-replicate, true, false,
  ◌+◌, ◌⊎◌, refl, [], ◌∷◌, ◌≡◌, ◌++◌, List, ℕ, some, none, All, Bool, ◌<◌, ◌^◌,
}
use linuxapp.Common.Decimal.{decimal}
use linuxapp.Common.{ltb}
use linuxapp.Fifo.Upper.{converse, hello_text, Message, message_size, message_bytes}
use linuxapp.Fifo.Upper.Conversation.{converse_lem}
use linuxapp.Fifo.Bulk.Ends.{transfer_lem}
use linuxapp.Common.Channel.{queue, queue-IsFifo, queue-IsWorking}
use linuxapp.Fifo.Stream.{writer, reader, Turn, run, run_lem, sent, keeps_up}
use linuxapp.Common.CString.{IsText}
use linuxapp.Fifo.Polled
use linuxapp.Fifo.Polled.{buf_size, Step, opens, looks, sends, Sys, wrote, write_main, read_round}
use linuxapp.Fifo.Polled.Interface.{page, page-IsNoWait}
use linuxapp.Fifo.Polled.Frames.{nonempty, written}
use linuxapp.Fifo.Polled.Delivery.{delivery_lem}
use linuxapp.Fifo.Polled.Due.{IsFit}
use linuxapp.Fifo.Upper.Names.{Name, directory, directory-IsDirectory, server_fifo, client_fifo}
use linuxapp.Fifo.Upper.Lives.{Event, enters, arrives, End, given_up, server_main, client_main}
use linuxapp.Fifo.Upper.Sent.{IsSent, senders}
use linuxapp.Fifo.Upper.Leftovers.{leftovers_lem}

abbrev turns : List Turn
turns = Turn.writer ∷ Turn.writer ∷ Turn.reader ∷ Turn.writer ∷ []

run_lem_example :
    (out : List ℕ) × (t : List ℕ) × (run queue turns [] ≡ some (out, t))
    × ([] ++ sent turns ≡ out ++ t)
unfolding keeps_up IsText
run_lem_example = run_lem queue queue-IsFifo queue-IsWorking turns [] tt refl

-- A buffer of zeros, and some turns.
abbrev zero_buffer : List ℕ
zero_buffer = replicate buffer_size 0

abbrev some_turns : List Turn
some_turns = reader ∷ writer ∷ writer ∷ reader ∷ []

-- A pipe that holds two pages.
abbrev two_pages : List ℕ → ℕ → Bool
two_pages s n = ltb 8192 (length s + n)

two_pages-IsBlocking : IsBlocking queue two_pages
two_pages-IsBlocking = record {
  has_room = λ s n room. ground (arith, room);
  goes_on = λ s bs going. (length bs, s ++ bs, refl);
}

transfer_lem_example :
    (b c : Transfer queue two_pages) × (transfer queue two_pages zero_buffer some_turns
        (opened queue two_pages [])
      ≡ some b)
    × (b.received + length b.pipe ≡ b.written)
    × ((b.finished ≡ false) ⊎ (b.received ≡ ten_meg))
    × (transfer queue two_pages zero_buffer (alternate 2561) (opened queue two_pages []) ≡ some c)
    × (c.finished ≡ true)
transfer_lem_example =
    transfer_lem queue two_pages queue-IsFifo queue-IsWorking two_pages-IsBlocking zero_buffer
      (length-replicate {A = ℕ} buffer_size 0) some_turns [] refl

-- The client 4711, in ASCII.
abbrev upper_case : ℕ → ℕ
upper_case c = if leb 97 c && leb c 122 then c - 32 else c

upper_case_no_end : (c : ℕ) → c ≢ 0 → upper_case c ≢ 0
upper_case_no_end c h = ground arith

abbrev stack_bytes : List ℕ
stack_bytes = 7 ∷ 0 ∷ 9 ∷ 255 ∷ 1 ∷ []

abbrev three_zeros : List ℕ
three_zeros = 0 ∷ 0 ∷ 0 ∷ []

converse_lem_example :
    (t u : List ℕ) × (converse upper_case queue queue 4711 stack_bytes three_zeros [] []
      ≡ some (map upper_case (hello_text 4711), t, u))
    × (t ≡ [])
    × (u ≡ [])
unfolding decimal
converse_lem_example =
    converse_lem upper_case upper_case_no_end queue queue queue-IsFifo queue-IsWorking queue-IsFifo
      queue-IsWorking 4711 stack_bytes three_zeros [] [] (omega arith) refl refl refl refl

-- Writers and the reader of fifoexa0: one comes before the reader, one has no argument.
abbrev clean_array : List ℕ
clean_array = replicate buf_size 0

abbrev polled_steps : List Step
polled_steps =
    sends (some (7 ∷ [])) clean_array
    ∷ opens
    ∷ looks
    ∷ sends (some (8 ∷ 9 ∷ [])) clean_array
    ∷ sends none clean_array
    ∷ sends (some []) clean_array
    ∷ []

delivery_lem_example :
    (y : Sys page) × (t : List ℕ) × (u : List ℕ) × (Polled.run page
        (polled_steps ++ replicate 6 looks)
        (record { reading = false; pipe = []; said = []; shown = [] })
      ≡ some y)
    × (y.pipe ≡ [])
    × (nonempty (written y.said) ≡ nonempty y.shown)
    × (write_main page true (some (5 ∷ [])) clean_array y.pipe ≡ some (wrote (5 ∷ []), t))
    × (read_round page t ≡ some (5 ∷ [], u))
unfolding IsText
delivery_lem_example =
    let last : IsFit (sends (some (5 ∷ [])) clean_array) = ((omega arith, tt), omega arith, refl) in
    let first : IsFit (sends (some (7 ∷ [])) clean_array) =
      ((omega arith, tt), omega arith, refl) in
    let second : IsFit (sends (some (8 ∷ 9 ∷ [])) clean_array) =
      ((omega arith, (omega arith, tt)), omega arith, refl) in
    let empty : IsFit (sends (some []) clean_array) = (tt, omega arith, refl) in
    let fits : All IsFit (sends (some (5 ∷ [])) clean_array ∷ polled_steps) =
      (last, (first, (tt, (tt, (second, (tt, (empty, tt))))))) in
    delivery_lem page page-IsNoWait polled_steps (5 ∷ []) clean_array [] fits refl

-- Two clients send `Hi`; the pipe of the second is not there.
abbrev hi_from : ℕ → Message
hi_from pid = record {
  client_pid = pid;
  text = b'H' ∷ b'i' ∷ 0 ∷ replicate 18 0;
  padding = replicate 3 0;
}

hi-IsSent : (pid : ℕ) → pid < 2 ^ 32 → IsSent (message_bytes (hi_from pid))
unfolding IsText
hi-IsSent pid small = record {
  message = hi_from pid;
  chars = b'H' ∷ b'i' ∷ [];
  junk = replicate 18 0;
  same = refl;
  small = small;
  spelled = refl;
  is_text = (omega arith, (omega arith, tt));
  whole = refl;
  fill = refl;
}

abbrev clean_message : List ℕ
clean_message = replicate message_size 0

abbrev two_clients : List Event
two_clients =
    enters 7 ∷ arrives (message_bytes (hi_from 7)) ∷ arrives (message_bytes (hi_from 8)) ∷ []

abbrev no_names : Name → Bool
no_names n = false

abbrev same_letter : ℕ → ℕ
same_letter c = c

leftovers_lem_example :
    (end : End directory) × (t : Name → Bool) × (server_main directory same_letter two_clients
        clean_message no_names
      ≡ some end)
    × (((end.code ≡ 0)
          × (end.names server_fifo ≡ false)
          × (map (λ a. a.0) end.answers ≡ senders two_clients))
        ⊎ ((gone : ℕ) × (rest : List ℕ) × (end.code ≡ 1)
            × (end.names (client_fifo gone) ≡ false)
            × (senders two_clients ≡ map (λ a. a.0) end.answers ++ gone ∷ rest)
            × (server_main directory same_letter [] [] end.names
                ≡ some (given_up directory end.names))))
    × (client_main directory 9 no_names ≡ (1, t))
    × (client_main directory 9 t ≡ (1, t))
leftovers_lem_example =
    leftovers_lem directory directory-IsDirectory same_letter two_clients [] clean_message [] 9
      no_names (tt, (hi-IsSent 7 (omega arith), (hi-IsSent 8 (omega arith), tt))) refl refl refl
