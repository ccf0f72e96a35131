-- ===== src/Crc/Detect.antt =====
-- What the check value finds: it vanishes over a message with its own check bytes behind it, and
-- it tells apart two messages that differ within two neighbouring bytes.
use linuxapp.Common.{
  ℕ, ◌+◌, ◌*◌, ◌<◌, ◌≡◌, refl, arith, ap₂, ◌↔◌, sym, ap, ◌∙◌, List, [], ◌∷◌, length, All, IsByte,
  ◌++◌, ◌≤◌, some,
}
use linuxapp.Common.Bits.{bit_or_fields, bit_xor_self, bit_xor-zero}
use linuxapp.Crc.{auch_crc_lo, crc16_loop, auch_crc_hi, crc16}
use linuxapp.Crc.Running.{after, after_bytes, loop_after, one_byte, two_bytes, next_bytes}

burst_from :
    (x y post : List ℕ) (hi lo : ℕ)
    → hi < 256
    → lo < 256
    → All IsByte x
    → All IsByte y
    → All IsByte post
    → length x ≡ length y
    → length x ≤ 2
    → crc16_loop (x ++ post) (length (x ++ post)) hi lo
      ≡ crc16_loop (y ++ post) (length (y ++ post)) hi lo
    → x ≡ y
burst_from [] [] post hi lo h l bx bb bp n small e = refl
burst_from [] (c ∷ y) post hi lo h l bx bb bp n small e = absurd (omega arith)
burst_from (a ∷ x) [] post hi lo h l bx bb bp n small e = absurd (omega arith)
burst_from (a ∷ []) (c ∷ []) post hi lo h l bx bb bp n small e =
    ap (λ z. z ∷ []) (one_byte post bp a c hi lo h l bx.0 bb.0 e)
burst_from (a ∷ []) (c ∷ d ∷ y) post hi lo h l bx bb bp n small e = absurd (omega arith)
burst_from (a ∷ b ∷ x) (c ∷ []) post hi lo h l bx bb bp n small e = absurd (omega arith)
burst_from (a ∷ b ∷ []) (c ∷ d ∷ []) post hi lo h l bx bb bp n small e =
    let both = two_bytes post bp a b c d hi lo h l bx.0 bx.1.0 bb.0 bb.1.0 e in
    ap₂ (λ u v. u ∷ v ∷ []) both.0 both.1
burst_from (a ∷ b ∷ []) (c ∷ d ∷ z ∷ y) post hi lo h l bx bb bp n small e = absurd (omega arith)
burst_from (a ∷ b ∷ z ∷ x) (c ∷ d ∷ y) post hi lo h l bx bb bp n small e = absurd (omega arith)

-- Two messages of bytes that agree but for a stretch of at most two neighbouring bytes have the
-- same CRC16 only if they agree there too: an error within such a stretch changes the check value.
pub crc16_burst :
    (pre x y post : List ℕ)
    → All IsByte pre
    → All IsByte x
    → All IsByte y
    → All IsByte post
    → length x ≡ length y
    → length x ≤ 2
    → crc16 (pre ++ (x ++ post)) (length (pre ++ (x ++ post)))
      ≡ crc16 (pre ++ (y ++ post)) (length (pre ++ (y ++ post)))
    → x ≡ y
unfolding crc16
crc16_burst pre x y post b bx bb bp n small e =
    let s = after_bytes pre 0xff 0xff b (omega arith) (omega arith) in
    burst_from x y post _ _ s.0 s.1 bx bb bp n small
      (sym (loop_after pre (x ++ post) 0xff 0xff) ∙ e ∙ loop_after pre (y ++ post) 0xff 0xff)

own_bytes : (hi lo : ℕ) → crc16_loop (hi ∷ lo ∷ []) 2 hi lo ≡ some 0
unfolding crc16_loop auch_crc_hi auch_crc_lo
own_bytes hi lo = rw (bit_xor_self hi) (rw (bit_xor-zero lo) (rw (bit_xor_self lo) (refl)))

loop_value :
    (msg : List ℕ) (hi lo : ℕ)
    → All IsByte msg
    → hi < 256
    → lo < 256
    → crc16_loop msg (length msg) hi lo ≡ some ((after msg hi lo).0 * 256 + (after msg hi lo).1)
unfolding crc16_loop after
loop_value [] hi lo bytes h l = ap some (bit_or_fields 8 hi lo l)
loop_value (b ∷ msg) hi lo (k, bytes) h l =
    let n = next_bytes hi lo b h l k in loop_value msg _ _ bytes n.0 n.1

some_injective : {a b : ℕ} → some a ≡ some b → a ≡ b
some_injective e = cc

two_digits : (a b c d : ℕ) → b < 256 → d < 256 → a * 256 + b ≡ c * 256 + d → (a ≡ c) × (b ≡ d)
two_digits a b c d h k e = omega arith

-- Over a message with two bytes behind it CRC16 is 0 exactly if those bytes are the message's own
-- CRC16, the high byte first: so a frame that carries its check value can be tested at once.
pub crc16_residue :
    (msg : List ℕ) (w p q : ℕ)
    → All IsByte msg
    → p < 256
    → q < 256
    → crc16 msg (length msg) ≡ some w
    → (crc16 (msg ++ (p ∷ q ∷ [])) (length (msg ++ (p ∷ q ∷ []))) ≡ some 0) ↔ (p * 256 + q ≡ w)
unfolding crc16
crc16_residue msg w p q bytes hp hq e = (
  λ zero_at. forth (
      two_bytes [] tt p q hi lo hi lo s.0 s.1 hp hq s.0 s.1
        (sym (loop_after msg (p ∷ q ∷ []) 0xff 0xff) ∙ zero_at ∙ sym (own_bytes hi lo))),
  λ own.
      loop_after msg (p ∷ q ∷ []) 0xff 0xff ∙ back (two_digits p q hi lo hq s.1 (own ∙ sym value)),
)
  where
    hi : ℕ
    hi = (after msg 0xff 0xff).0

    lo : ℕ
    lo = (after msg 0xff 0xff).1

    s : (hi < 256) × (lo < 256)
    s = after_bytes msg 0xff 0xff bytes (omega arith) (omega arith)

    value : hi * 256 + lo ≡ w
    value = some_injective (sym (loop_value msg 0xff 0xff bytes (omega arith) (omega arith)) ∙ e)

    forth : (p ≡ hi) × (q ≡ lo) → p * 256 + q ≡ w
    forth (x, y) = rw (x, y) value

    back : (p ≡ hi) × (q ≡ lo) → crc16_loop (p ∷ q ∷ []) 2 hi lo ≡ some 0
    back (x, y) = rw (x, y) (own_bytes hi lo)
