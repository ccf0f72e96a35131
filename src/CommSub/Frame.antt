-- ===== src/CommSub/Frame.antt =====
-- The receiving side: how ticks fill the buffer, and what the checks say of a received frame.
use linuxapp.Common.{
  ℕ, ◌+◌, ◌-◌, ◌*◌, ◌≤◌, ◌<◌, ◌==◌, ltb, lt→ltb, ◌≡◌, refl, arith, ap, ◌∙◌, Option, some, ◌>>=◌,
  List, [], ◌∷◌, ◌++◌, map, if◌then◌else◌, Bool, true, false, length, get_elem?, set, replicate,
  All, IsByte, length-append, u8, u16, get_elem?-append_self, replicate_pos, set-append_self,
  Option-cases, inl, inr, Bool-cases,
}
use mathlib.Core.List.{append_assoc, append-nil}
use linuxapp.Usrtypes.{CommRcv, chars_maxsize}
use linuxapp.Uart.{got}
use linuxapp.Crc.{crc16}
use linuxapp.Crc.Reference.{crc_modbus, swap_bytes}
use linuxapp.Crc.Refine.{crc16-crc_modbus}
use linuxapp.CommSub.{
  CommSub, store_at, rcv_put, comm_sub_read_tick, comm_sub_check_packet, Check, after_packet,
  slot_of, same_bytes, check_crcbuf_equal, check_pass, check_packet_error, comm_sub_check, zero_rcv,
}

-- The buffer that holds `frame` and zeros behind it.
abbrev pub rcv_with : List ℕ → CommRcv
rcv_with frame = record {
  length = length frame;
  chars = frame ++ replicate (chars_maxsize - length frame) 0;
}

store_at-append {ℓ} :
    {A : Type ℓ} (pre : List A) (x v : A) (rest : List A)
    → store_at (pre ++ (x ∷ rest)) (length pre) v ≡ some (pre ++ (v ∷ rest))
unfolding store_at
store_at-append pre x v rest =
    rw (get_elem?-append_self pre x rest) (ap some (set-append_self pre x v rest))

length-snoc : (xs : List ℕ) (b : ℕ) → length (xs ++ (b ∷ [])) ≡ length xs + 1
length-snoc xs b = length-append xs (b ∷ [])

rcv_put_with :
    (frame : List ℕ) (b : ℕ)
    → length frame < 128
    → rcv_put (rcv_with frame) b ≡ some (rcv_with (frame ++ (b ∷ [])))
unfolding rcv_put
rcv_put_with frame b h = rw (replicate_pos {A = ℕ} (128 - length frame) 0 (omega arith)) (
    rw (store_at-append frame 0 b (replicate (128 - length frame - 1) 0))
      (ap some (λ i. record { length = count i; chars = bytes i })))
  where
    count : u8 (length frame + 1) ≡ length (frame ++ (b ∷ []))
    count = omega (arith, length-snoc frame b)

    bytes :
        frame ++ (b ∷ replicate (128 - length frame - 1) 0)
        ≡ (frame ++ (b ∷ [])) ++ replicate (128 - length (frame ++ (b ∷ []))) 0
    bytes =
        rw (length-snoc frame b, append_assoc frame (b ∷ []))
          (ap (λ k. frame ++ (b ∷ replicate k 0)) (omega arith))

-- The loop's ticks while bytes arrive: each with the time that it reads.
unfoldable pub ticks : List (ℕ × ℕ) → CommSub → Option CommSub
ticks [] s = some s
ticks ((now, b) ∷ arrivals) s = comm_sub_read_tick now (got b) s >>= ticks arrivals

abbrev pub bytes_of : List (ℕ × ℕ) → List ℕ
bytes_of = map (λ a. a.1)

ticks_fill :
    (arrivals : List (ℕ × ℕ)) (frame : List ℕ) (s : CommSub)
    → s.rcv ≡ rcv_with frame
    → All (λ a. a.0 < s.time_out) arrivals
    → length frame + length arrivals ≤ 128
    → ticks arrivals s ≡ some (record s { rcv = rcv_with (frame ++ bytes_of arrivals) })
unfolding ticks comm_sub_read_tick
ticks_fill [] frame s e within fits = rw (append-nil frame, ← e) refl
ticks_fill ((now, b) ∷ arrivals) frame s e (h, within) fits = rw (lt→ltb now s.time_out h) (
    rw e (
      rw (rcv_put_with frame b (omega arith)) (
        rw (← append_assoc frame (b ∷ []) (bytes_of arrivals)) (
          ticks_fill arrivals (frame ++ (b ∷ [])) (record s { rcv = rcv_with (frame ++ (b ∷ [])) })
            refl within (omega (arith, length-snoc frame b))))))

-- The value that the last two bytes of a frame stand for, and the one that its check needs.
abbrev pub wire_word : ℕ → ℕ → ℕ
wire_word p q = p * 256 + q

abbrev pub frame_of : List ℕ → ℕ → ℕ → List ℕ
frame_of msg p q = msg ++ (p ∷ q ∷ [])

length-frame : (msg : List ℕ) (p q : ℕ) → length (frame_of msg p q) ≡ length msg + 2
length-frame msg p q = length-append msg (p ∷ q ∷ [])

module _ (msg : List ℕ) (p q : ℕ) (rest : List ℕ) where
  first_check_byte : get_elem? (frame_of msg p q ++ rest) (length msg) ≡ some p
  first_check_byte =
      rw (append_assoc msg (p ∷ q ∷ []) rest) (get_elem?-append_self msg p (q ∷ rest))

  second_check_byte : get_elem? (frame_of msg p q ++ rest) (length msg + 1) ≡ some q
  second_check_byte =
      rw
        (
          append_assoc msg (p ∷ q ∷ []) rest,
          ← append_assoc msg (p ∷ []) (q ∷ rest),
          ← length-snoc msg p,
        )
        (get_elem?-append_self (msg ++ (p ∷ [])) q rest)

-- comm_sub_checkPacket on a received frame of at least three bytes: it hands out the last two
-- bytes, and answers whether they are the check value of the bytes before them.
pub check_packet_frame :
    (msg : List ℕ) (p q : ℕ)
    → All IsByte msg
    → p < 256
    → q < 256
    → 0 < length msg
    → comm_sub_check_packet (rcv_with (frame_of msg p q))
      ≡ some (wire_word p q == swap_bytes (crc_modbus msg), some (p, q))
unfolding comm_sub_check_packet
check_packet_frame msg p q bytes hp hq h =
    rw (long, at_first, at_second, value)
      (ap (λ (n : ℕ). some (n == swap_bytes (crc_modbus msg), some (p, q))) word)
  where
    word : u16 (p * 256 + q) ≡ wire_word p q
    word = omega arith

    rest : List ℕ
    rest = replicate (chars_maxsize - length (frame_of msg p q)) 0

    count : length (frame_of msg p q) - 2 ≡ length msg
    count = omega (arith, length-frame msg p q)

    count' : length (frame_of msg p q) - 1 ≡ length msg + 1
    count' = omega (arith, length-frame msg p q)

    long : ltb (length (frame_of msg p q)) 3 ≡ false
    long = ground (arith, length-frame msg p q)

    at_first : get_elem? (frame_of msg p q ++ rest) (length (frame_of msg p q) - 2) ≡ some p
    at_first = ap (get_elem? (frame_of msg p q ++ rest)) count ∙ first_check_byte msg p q rest

    at_second : get_elem? (frame_of msg p q ++ rest) (length (frame_of msg p q) - 1) ≡ some q
    at_second = ap (get_elem? (frame_of msg p q ++ rest)) count' ∙ second_check_byte msg p q rest

    value :
        crc16 (frame_of msg p q ++ rest) (length (frame_of msg p q) - 2)
        ≡ some (swap_bytes (crc_modbus msg))
    value =
        ap (crc16 (frame_of msg p q ++ rest)) count
        ∙ rw (append_assoc msg (p ∷ q ∷ []) rest) (crc16-crc_modbus msg _ bytes)

-- What comm_sub_check does with a frame whose check value is right: the slot of its first byte
-- decides, and a slot outside the ten of `_crcBuf` is an access out of bounds.
abbrev pub passed : ℕ → ℕ × ℕ → CommSub → Option (Check × CommSub)
passed addr crc s = get_elem? s.crc_buf (slot_of addr) >>= λ old.
    if same_bytes old crc
    then some (check_crcbuf_equal, s)
    else some (check_pass, record s { crc_buf = set s.crc_buf (slot_of addr) crc })

pub check_crc_buf_frame :
    (addr : ℕ) (crc : ℕ × ℕ) (s : CommSub)
    → get_elem? s.rcv.chars 0 ≡ some addr
    → after_packet (true, some crc) s ≡ passed addr crc s
unfolding after_packet store_at
check_crc_buf_frame addr crc s e = rw e (elim (Option-cases (get_elem? s.crc_buf (slot_of addr))) [
  | inl missing ↦ rw missing refl
  | inr (old, there) ↦
      rw there
        (elim (Bool-cases (same_bytes old crc)) [ inl same ↦ rw same refl | inr new ↦ rw new refl ])
])

-- The result of comm_sub_check on a state whose buffer holds the frame.
abbrev pub checked : ℕ → List ℕ → ℕ → ℕ → CommSub → Option (Check × CommSub)
checked addr msg p q s =
    if wire_word p q == swap_bytes (crc_modbus (addr ∷ msg))
    then passed addr (p, q) s
    else some (check_packet_error, s)

pub check_of_packet :
    (s : CommSub) (r : Bool × Option (ℕ × ℕ))
    → comm_sub_check_packet s.rcv ≡ some r
    → comm_sub_check s ≡ after_packet r s
unfolding comm_sub_check
check_of_packet s r e = ap (λ o. o >>= λ x. after_packet x s) e

pub check_frame :
    (addr : ℕ) (msg : List ℕ) (p q : ℕ) (s : CommSub)
    → All IsByte (addr ∷ msg)
    → p < 256
    → q < 256
    → s.rcv ≡ rcv_with (frame_of (addr ∷ msg) p q)
    → comm_sub_check s ≡ checked addr msg p q s
check_frame addr msg p q s bytes hp hq e =
    check_of_packet s _
      (ap comm_sub_check_packet e ∙ check_packet_frame (addr ∷ msg) p q bytes hp hq (omega arith))
    ∙ elim (Bool-cases (wire_word p q == swap_bytes (crc_modbus (addr ∷ msg)))) [
      | inl right ↦ rw right (check_crc_buf_frame addr (p, q) s (ap (λ r. get_elem? r.chars 0) e))
      | inr wrong ↦ rw wrong (unfold after_packet in refl)
    ]

-- A frame that arrives in an emptied buffer, byte by byte and before the time is up, fits if it has
-- at most 128 bytes; the check then refuses it unless its last two bytes are the byte-swapped
-- Modbus CRC-16 of the others, and treats it by the slot of its first byte if they are.
pub received_frame :
    (arrivals : List (ℕ × ℕ)) (addr : ℕ) (msg : List ℕ) (p q : ℕ) (s : CommSub)
    → s.rcv ≡ zero_rcv
    → All (λ a. a.0 < s.time_out) arrivals
    → bytes_of arrivals ≡ frame_of (addr ∷ msg) p q
    → All IsByte (addr ∷ msg)
    → p < 256
    → q < 256
    → length arrivals ≤ 128
    → (ticks arrivals s >>= comm_sub_check)
      ≡ checked addr msg p q (record s { rcv = rcv_with (frame_of (addr ∷ msg) p q) })
received_frame arrivals addr msg p q s empty within same bytes hp hq fits =
    rw (ticks_fill arrivals [] s empty within (omega arith)) (
      rw same (
        check_frame addr msg p q (record s { rcv = rcv_with (frame_of (addr ∷ msg) p q) }) bytes hp
          hq refl))
