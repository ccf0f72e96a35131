-- ===== src/CommSub/Checks.antt =====
-- Consequences of comm_sub_check and of the tick's write: repeats, addresses, damage, overflow.
use linuxapp.Common.{
  ℕ, zero, suc, ◌≤◌, ◌<◌, ◌==◌, ==_iff, ◌≡◌, refl, arith, ap, ◌∙◌, sym, ◌↔◌, ◌⊎◌, ◌≢◌, inl, inr,
  Option, some, none, List, [], ◌∷◌, ◌++◌, Bool, true, false, length, get_elem?, set, All,
  All-append, IsByte, Bool-cases, Option-cases, >>=-eq-some, lt→ltb, get_elem?-set_self,
}
use mathlib.Core.List.{append-nil}
use native.Mathlib.Decide.{dec_lt}
use linuxapp.CommSub.{
  same_bytes, CommSub, Check, check_pass, check_packet_error, check_crcbuf_equal, rcv_put,
  comm_sub_read_tick, comm_sub_check, comm_sub_check_packet, comm_sub_check_crc_buf, after_packet,
  slot_of,
}
use linuxapp.Uart.{ReadResult}
use linuxapp.Crc.{crc16}
use linuxapp.Crc.Reference.{crc_modbus, swap_bytes}
use linuxapp.Crc.Refine.{crc16-crc_modbus}
use linuxapp.Crc.Detect.{crc16_burst, crc16_residue}
use linuxapp.CommSub.Frame.{
  rcv_with, frame_of, wire_word, check_packet_frame, check_frame, check_of_packet, passed,
  check_crc_buf_frame,
}

-- A read beyond the end is none, and only that.
get_elem?_bounds {ℓ} :
    {A : Type ℓ} (xs : List A) (i : ℕ) → (get_elem? xs i ≡ none) ↔ (length xs ≤ i)
get_elem?_bounds [] i = (λ e. omega arith, λ h. refl)
get_elem?_bounds (x ∷ xs) zero = (λ e. cc, λ h. absurd (omega arith))
get_elem?_bounds (x ∷ xs) (suc i) =
    let ih = get_elem?_bounds xs i in (λ e. omega (arith, ih.0 e), λ h. ih.1 (omega arith))

passed-none :
    (addr : ℕ) (crc : ℕ × ℕ) (s : CommSub)
    → (passed addr crc s ≡ none) ↔ (get_elem? s.crc_buf (slot_of addr) ≡ none)
passed-none addr crc s = elim (Option-cases (get_elem? s.crc_buf (slot_of addr))) [
  | inl missing ↦ rw missing (λ e. refl, λ e. refl)
  | inr (old, there) ↦ rw there (λ e. ground arith, λ e. cc)
]

-- On a received frame whose check value is right, with the ten slots of `_crcBuf`, comm_sub_check
-- reads outside `_crcBuf` exactly if the first byte is no address from 1 to 10.
pub check_faults_iff :
    (addr : ℕ) (msg : List ℕ) (p q : ℕ) (s : CommSub)
    → All IsByte (addr ∷ msg)
    → p < 256
    → q < 256
    → s.rcv ≡ rcv_with (frame_of (addr ∷ msg) p q)
    → length s.crc_buf ≡ 10
    → wire_word p q ≡ swap_bytes (crc_modbus (addr ∷ msg))
    → (comm_sub_check s ≡ none) ↔ ((addr ≡ 0) ⊎ (10 < addr))
check_faults_iff addr msg p q s bytes hp hq e ten right =
    rw (check_frame addr msg p q s bytes hp hq e, (==_iff _ _).1 right)
      (
        λ fault.
            slots
              ((get_elem?_bounds s.crc_buf (slot_of addr)).0 ((passed-none addr (p, q) s).0 fault)),
        λ bad.
            (passed-none addr (p, q) s).1
              ((get_elem?_bounds s.crc_buf (slot_of addr)).1 (back bad)),
      )
  where
    slots : length s.crc_buf ≤ slot_of addr → (addr ≡ 0) ⊎ (10 < addr)
    slots h = omega (arith, bytes.0)

    back : (addr ≡ 0) ⊎ (10 < addr) → length s.crc_buf ≤ slot_of addr
    back h = omega (arith, bytes.0)

own_check : (m : List ℕ) → All IsByte m → crc16 m (length m) ≡ some (swap_bytes (crc_modbus m))
own_check m b = ap (λ l. crc16 l (length m)) (sym (append-nil m)) ∙ crc16-crc_modbus m [] b

All-parts : (front back : List ℕ) → All IsByte (front ++ back) → All IsByte front × All IsByte back
All-parts [] back h = (tt, h)
All-parts (a ∷ front) back (h, hs) =
    let (first, second) = All-parts front back hs in ((h, first), second)

-- A frame of bytes, cut around a stretch.
cut_frame :
    (msg : List ℕ) (p q : ℕ) (pre x post : List ℕ)
    → All IsByte msg
    → p < 256
    → q < 256
    → pre ++ (x ++ post) ≡ frame_of msg p q
    → All IsByte pre × All IsByte x × All IsByte post
cut_frame msg p q pre x post b hp hq e =
    let whole : All IsByte (pre ++ (x ++ post)) =
      rw e (All-append IsByte msg (p ∷ q ∷ []) b (hp, (hq, tt))) in
    let (front, rest) = All-parts pre (x ++ post) whole in
    let (middle, back) = All-parts x post rest in (front, middle, back)

-- CRC16 of a frame with its right check value.
right_residue :
    (msg : List ℕ) (p q : ℕ)
    → All IsByte msg
    → p < 256
    → q < 256
    → wire_word p q ≡ swap_bytes (crc_modbus msg)
    → crc16 (frame_of msg p q) (length (frame_of msg p q)) ≡ some 0
right_residue msg p q b hp hq right =
    (crc16_residue msg (swap_bytes (crc_modbus msg)) p q b hp hq (own_check msg b)).1 right

-- A frame that was sent with its right check value and arrives with damage to at most two
-- neighbouring bytes, of which either or both may belong to the check value, is refused, and the
-- state stays as it was.
pub check_damaged :
    (msg msg' : List ℕ) (p q p' q' : ℕ) (pre x y post : List ℕ) (s : CommSub)
    → All IsByte msg
    → All IsByte msg'
    → (p < 256) × (q < 256)
    → (p' < 256) × (q' < 256)
    → pre ++ (x ++ post) ≡ frame_of msg p q
    → pre ++ (y ++ post) ≡ frame_of msg' p' q'
    → length x ≡ length y
    → length x ≤ 2
    → x ≢ y
    → 0 < length msg'
    → wire_word p q ≡ swap_bytes (crc_modbus msg)
    → s.rcv ≡ rcv_with (frame_of msg' p' q')
    → comm_sub_check s ≡ some (check_packet_error, s)
check_damaged msg msg' p q p' q' pre x y post s b b' (hp, hq) (hp', hq') out back n small ne long
      sent e =
    check_of_packet s _ (
      ap comm_sub_check_packet e
      ∙ check_packet_frame msg' p' q' b' hp' hq' long
      ∙ ap (λ c. some (c, some (p', q'))) wrong)
    ∙ unfold after_packet in refl
  where
    wrong : (wire_word p' q' == swap_bytes (crc_modbus msg')) ≡ false
    wrong = elim (Bool-cases (wire_word p' q' == swap_bytes (crc_modbus msg'))) [
      | inl right ↦
          let (front, middle, end) = cut_frame msg p q pre x post b hp hq out in
          let (front', middle', end') = cut_frame msg' p' q' pre y post b' hp' hq' back in
          absurd (
            ne (
              crc16_burst pre x y post front middle middle' end n small (
                ap (λ m. crc16 m (length m)) out
                ∙ right_residue msg p q b hp hq sent
                ∙ sym (right_residue msg' p' q' b' hp' hq' ((==_iff _ _).0 right))
                ∙ sym (ap (λ m. crc16 m (length m)) back))))
      | inr differs ↦ differs
    ]

-- A tick in its time writes outside the 128 characters of the buffer exactly if the buffer has
-- taken 128 bytes already.
pub tick_faults_iff :
    (now : ℕ) (r : ReadResult) (s : CommSub)
    → now < s.time_out
    → length s.rcv.chars ≡ 128
    → (comm_sub_read_tick now r s ≡ none) ↔ (128 ≤ s.rcv.length)
unfolding comm_sub_read_tick rcv_put
tick_faults_iff now r s h n =
    rw (lt→ltb now s.time_out h) (elim (Option-cases (get_elem? s.rcv.chars s.rcv.length)) [
      | inl missing ↦ rw missing (
        λ fault. omega (arith, (get_elem?_bounds s.rcv.chars s.rcv.length).0 missing),
        λ full. refl,
      )
      | inr (old, there) ↦ rw there (
        λ fault. cc,
        λ full. absurd (cc ((get_elem?_bounds s.rcv.chars s.rcv.length).1 (omega arith), there)),
      )
    ])

-- The state that a pass leaves behind.
abbrev noted : ℕ → ℕ × ℕ → CommSub → CommSub
noted addr crc s = record s { crc_buf = set s.crc_buf (slot_of addr) crc }

passed_inv :
    (addr : ℕ) (crc : ℕ × ℕ) (s s' : CommSub)
    → passed addr crc s ≡ some (check_pass, s')
    → (slot_of addr < length s.crc_buf) × (s' ≡ noted addr crc s)
passed_inv addr crc s s' e = elim (Option-cases (get_elem? s.crc_buf (slot_of addr))) [
  | inl missing ↦ cc (rw missing at e)
  | inr (old, there) ↦ (
    room old there,
    elim (Bool-cases (same_bytes old crc)) [
      | inl same ↦ cc (rw (there, same) at e)
      | inr new ↦ cc (rw (there, new) at e)
    ],
  )
]
  where
    room :
        (old : ℕ × ℕ)
        → get_elem? s.crc_buf (slot_of addr) ≡ some old
        → slot_of addr < length s.crc_buf
    room old there = elim (dec_lt (slot_of addr) (length s.crc_buf)) [
      | yes h ↦ h
      | no h ↦ absurd (cc ((get_elem?_bounds s.crc_buf (slot_of addr)).1 (omega arith), there))
    ]

same_bytes_self : (c : ℕ × ℕ) → same_bytes c c ≡ true
same_bytes_self (a, b) = ground arith

passed_again :
    (addr : ℕ) (crc : ℕ × ℕ) (s : CommSub)
    → slot_of addr < length s.crc_buf
    → passed addr crc (noted addr crc s) ≡ some (check_crcbuf_equal, noted addr crc s)
passed_again addr crc s h =
    rw (get_elem?-set_self s.crc_buf (slot_of addr) crc h) (rw (same_bytes_self crc) refl)

check_inv :
    (s : CommSub) {x : Check × CommSub}
    → comm_sub_check s ≡ some x
    → (r : Bool × Option (ℕ × ℕ)) × (comm_sub_check_packet s.rcv ≡ some r)
      × (after_packet r s ≡ some x)
unfolding comm_sub_check
check_inv s e = >>=-eq-some (comm_sub_check_packet s.rcv) (λ x. after_packet x s) e

-- A frame that has passed is recognised when it is checked again: the second answer is
-- CHECK_CRCBUF_EQUAL, and nothing changes.
pub check_again :
    (s s' : CommSub)
    → comm_sub_check s ≡ some (check_pass, s')
    → comm_sub_check s' ≡ some (check_crcbuf_equal, s')
check_again s s' e = let (r, packet, rest) = check_inv s e in again r packet rest
  where
    again :
        (r : Bool × Option (ℕ × ℕ))
        → comm_sub_check_packet s.rcv ≡ some r
        → after_packet r s ≡ some (check_pass, s')
        → comm_sub_check s' ≡ some (check_crcbuf_equal, s')
    again (false, o) packet rest = unfold after_packet in cc (rest)
    again (true, none) packet rest = unfold after_packet in cc (rest)
    again (true, some crc) packet rest = elim (Option-cases (get_elem? s.rcv.chars 0)) [
      | inl missing ↦ unfold after_packet comm_sub_check_crc_buf in cc (rw missing at rest)
      | inr (addr, there) ↦
          let (h, same) =
            passed_inv addr crc s s' (sym (check_crc_buf_frame addr crc s there) ∙ rest) in
          rw same (
            check_of_packet (noted addr crc s) (true, some crc) packet
            ∙ check_crc_buf_frame addr crc (noted addr crc s) there
            ∙ passed_again addr crc s h)
    ]
