-- ===== src/CommSub/Queue.antt =====
-- What comm_sub_exeMbus sends, against the packets that stand between the list's indices.
mod Tests
use linuxapp.Common.{
  ℕ, zero, suc, ◌+◌, ◌<◌, ◌==◌, Bool, true, false, not, Option, none, some, List, [], ◌∷◌, ◌++◌,
  map, length, get_elem?, get_or, take, drop, u64, ◌>>=◌, ◌≡◌, ◌≢◌, refl, sym, ap, ◌∙◌, arith, inl,
  inr, Bool-cases, ==_iff,
}
use linuxapp.Usrtypes.{isempty, delete_flush}
use linuxapp.Usrtypes.Ring.{
  occupancy, next, delete_flush-next, next-lt, occupancy-next_nonempty, isempty-occupancy, apart,
}
use linuxapp.CommSub.{
  CommSub, CommSubList, MbusPacket, zero_packet, zero_rcv, mbus_rcv_ms, comm_sub_reset,
  comm_sub_start_rcv, comm_sub_list_max, comm_sub_exe_mbus, packet_bytes,
}

-- So many packets from an index on, around the end of the array.
unfoldable pub from_index : List MbusPacket → ℕ → ℕ → List MbusPacket
from_index m i zero = []
from_index m i (suc k) = get_or m i zero_packet ∷ from_index m (next i comm_sub_list_max) k

-- The packets that the list holds, the oldest first.
unfoldable pub queued : CommSubList → List MbusPacket
unfolding from_index
queued l = from_index l.m_bus l.sof (occupancy l.sof l.eof comm_sub_list_max)

-- The array is whole and both indices are in it.
pub record IsRing (l : CommSubList) : Type 0 where
  pub whole : length l.m_bus ≡ comm_sub_list_max
  pub sof-lt : l.sof < comm_sub_list_max
  pub eof-lt : l.eof < comm_sub_list_max

get_or-some :
    (m : List MbusPacket) (i : ℕ) → i < length m → get_elem? m i ≡ some (get_or m i zero_packet)
get_or-some [] i h = absurd (omega (arith, h))
get_or-some (p ∷ m) zero h = refl
get_or-some (p ∷ m) (suc i) h = get_or-some m i (omega arith)

-- Calls of comm_sub_exeMbus at the times given, with all that they write.
unfoldable pub drain : List ℕ → CommSub → Option (CommSub × List (List ℕ))
drain [] s = some (s, [])
drain (now ∷ times) s = do
  (t, out) ← comm_sub_exe_mbus now s
  (u, rest) ← drain times t
  some (u, out ++ rest)

true-ne-false : true ≢ false
true-ne-false e = cc

-- Without the packet at its front, the list is what delete_flush makes of the index.
queued-front :
    (l : CommSubList)
    → IsRing l
    → isempty l.sof l.eof ≡ false
    → queued l
      ≡ get_or l.m_bus l.sof zero_packet
        ∷ queued (record l { sof = delete_flush l.sof comm_sub_list_max })
unfolding queued from_index
queued-front l ring e =
    ap (from_index l.m_bus l.sof) count
    ∙ ap (λ i. get_or l.m_bus l.sof zero_packet ∷ from_index l.m_bus i (occupancy i l.eof 10))
        (sym moved)
  where
    some_left : occupancy l.sof l.eof 10 ≢ 0
    some_left z =
        true-ne-false (sym ((isempty-occupancy l.sof l.eof 10 ring.sof-lt ring.eof-lt).1 z) ∙ e)

    moved : delete_flush l.sof 10 ≡ next l.sof 10
    moved = delete_flush-next l.sof 10 ring.sof-lt (omega arith)

    count : occupancy l.sof l.eof 10 ≡ suc (occupancy (next l.sof 10) l.eof 10)
    count =
        occupancy-next_nonempty l.sof l.eof 10 ring.sof-lt ring.eof-lt
          (apart l.sof l.eof 10 some_left)
        ∙ omega arith

queued-empty : (l : CommSubList) → IsRing l → isempty l.sof l.eof ≡ true → queued l ≡ []
unfolding queued from_index
queued-empty l ring e =
    ap (from_index l.m_bus l.sof) ((isempty-occupancy l.sof l.eof 10 ring.sof-lt ring.eof-lt).0 e)

advanced-IsRing :
    (l : CommSubList) → IsRing l → IsRing (record l { sof = delete_flush l.sof comm_sub_list_max })
advanced-IsRing l ring = record {
  whole = ring.whole;
  sof-lt = rw (delete_flush-next l.sof 10 ring.sof-lt (omega arith)) (next-lt l.sof 10 ring.sof-lt);
  eof-lt = ring.eof-lt;
}

-- The reception that a call at a time has started: an empty buffer and the new deadline.
pub record IsWaiting (now : ℕ) (s t : CommSub) : Type 0 where
  pub emptied : t.rcv ≡ zero_rcv
  pub deadline : t.time_out ≡ u64 (now + mbus_rcv_ms)
  pub noted : t.crc_buf ≡ s.crc_buf

-- One call takes the oldest packet out of the list and sends it, if there is one.
pub exe_mbus-queued :
    (now : ℕ) (s : CommSub)
    → IsRing s.sub_list
    → (t : CommSub) × (comm_sub_exe_mbus now s
        ≡ some (t, map packet_bytes (take 1 (queued s.sub_list))))
      × (queued t.sub_list ≡ drop 1 (queued s.sub_list))
      × IsRing t.sub_list
      × IsWaiting now s t
unfolding comm_sub_exe_mbus comm_sub_reset comm_sub_start_rcv
exe_mbus-queued now s ring = elim (Bool-cases (isempty s.sub_list.sof s.sub_list.eof)) [
  | inl e ↦ (
    record (comm_sub_start_rcv now mbus_rcv_ms (comm_sub_reset s)) { sub_list = s.sub_list },
    rw (queued-empty s.sub_list ring e) (rw e refl),
    rw (queued-empty s.sub_list ring e) refl,
    ring,
    record { emptied = refl; deadline = refl; noted = refl },
  )
  | inr e ↦ (
    record (comm_sub_start_rcv now mbus_rcv_ms (comm_sub_reset s)) {
      sub_list = record s.sub_list { sof = delete_flush s.sub_list.sof comm_sub_list_max };
    },
    rw (queued-front s.sub_list ring e)
        (rw e (rw (get_or-some s.sub_list.m_bus s.sub_list.sof (rw ring.whole ring.sof-lt)) refl)),
    rw (queued-front s.sub_list ring e) refl,
    advanced-IsRing s.sub_list ring,
    record { emptied = refl; deadline = refl; noted = refl },
  )
]

sent-more :
    (n : ℕ) (ps : List MbusPacket)
    → map packet_bytes (take 1 ps) ++ map packet_bytes (take n (drop 1 ps))
      ≡ map packet_bytes (take (suc n) ps)
sent-more zero [] = refl
sent-more (suc n) [] = refl
sent-more n (p ∷ ps) = refl

left-less : (n : ℕ) (ps : List MbusPacket) → drop n (drop 1 ps) ≡ drop (suc n) ps
left-less zero [] = refl
left-less (suc n) [] = refl
left-less n (p ∷ ps) = refl

-- From a list whose array is whole and whose indices are in it, any number of calls of
-- comm_sub_exeMbus succeed, write the oldest of its packets, as many as there are calls or packets,
-- in their order and each in its eight bytes, and leave the others.
pub drain_lem :
    (times : List ℕ) (s : CommSub)
    → IsRing s.sub_list
    → (t : CommSub) × (drain times s
        ≡ some (t, map packet_bytes (take (length times) (queued s.sub_list))))
      × (queued t.sub_list ≡ drop (length times) (queued s.sub_list))
      × IsRing t.sub_list
unfolding drain
drain_lem [] s ring = (s, refl, refl, ring)
drain_lem (now ∷ times) s ring =
    let (u, e, left, ring', waiting) = exe_mbus-queued now s ring in
    let (t, e2, left2, ring'') = drain_lem times u ring' in
    (
      t,
      rw e (
          rw e2 (rw left (ap (λ bs. some (t, bs)) (sent-more (length times) (queued s.sub_list))))),
      rw left2 (rw left (left-less (length times) (queued s.sub_list))),
      ring'',
    )
