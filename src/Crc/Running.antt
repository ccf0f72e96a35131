-- ===== src/Crc/Running.antt =====
-- The two bytes that CRC16 carries from byte to byte: what a step does to them, and that no step
-- loses anything.
use linuxapp.Common.{
  ℕ, zero, suc, ◌+◌, ◌*◌, ◌%◌, ◌<◌, ◌==◌, ◌≡◌, refl, arith, true, bit_xor, ltb, sym, ap, ◌∙◌, List,
  [], ◌∷◌, if◌then◌else◌, length, All, IsByte, ==_iff, ◌++◌,
}
use linuxapp.Common.Bits.{
  all_below, all_below_sound, bit_xor-lt, bit_or_fields, bit_xor_comm, bit_xor_injective,
}
use linuxapp.Crc.{auch_crc_lo, crc16_loop}
use linuxapp.Crc.Refine.{table_hi, table_lo, tables_bytes}

-- Eight shifts undone: the low table's value says which entry it was.
unshift_bits : ℕ → ℕ → ℕ
unshift_bits zero r = r
unshift_bits (suc n) r = unshift_bits n (if ltb r 0x8000 then r * 2 else bit_xor r 0xa001 * 2 + 1)

entry_of : ℕ → ℕ
unfolding unshift_bits
entry_of v = unshift_bits 8 (v * 256) % 256

entries_check : all_below 256 (λ i. entry_of (table_lo i) == i) ≡ true
unfolding all_below auch_crc_lo entry_of
entries_check = refl

table_lo_injective : (i j : ℕ) → i < 256 → j < 256 → table_lo i ≡ table_lo j → i ≡ j
table_lo_injective i j h k e =
    sym ((==_iff _ _).0 (all_below_sound 256 _ i entries_check h))
    ∙ ap entry_of e
    ∙ (==_iff _ _).0 (all_below_sound 256 _ j entries_check k)

-- The running bytes after one more byte of the message.
abbrev pub next_hi : ℕ → ℕ → ℕ → ℕ
next_hi hi lo b = bit_xor lo (table_hi (bit_xor hi b))

abbrev pub next_lo : ℕ → ℕ → ℕ
next_lo hi b = table_lo (bit_xor hi b)

pub next_bytes :
    (hi lo b : ℕ) → hi < 256 → lo < 256 → b < 256 → (next_hi hi lo b < 256) × (next_lo hi b < 256)
next_bytes hi lo b h l k = (
  bit_xor-lt 8 lo _ l (tables_bytes _ (bit_xor-lt 8 hi b h k)).1,
  (tables_bytes _ (bit_xor-lt 8 hi b h k)).0,
)

next_injective :
    (hi lo b hi' lo' b' : ℕ)
    → hi < 256
    → b < 256
    → hi' < 256
    → b' < 256
    → next_hi hi lo b ≡ next_hi hi' lo' b'
    → next_lo hi b ≡ next_lo hi' b'
    → (bit_xor hi b ≡ bit_xor hi' b') × (lo ≡ lo')
next_injective hi lo b hi' lo' b' h k h' k' e f = (
  index,
  bit_xor_injective (table_hi (bit_xor hi b)) lo lo'
      (bit_xor_comm _ lo ∙ e ∙ rw (← index) (bit_xor_comm lo' _)),
)
  where
    index : bit_xor hi b ≡ bit_xor hi' b'
    index = table_lo_injective _ _ (bit_xor-lt 8 hi b h k) (bit_xor-lt 8 hi' b' h' k') f

-- Over the same bytes, two states give the same check value only if they are the same state.
loop_injective :
    (msg : List ℕ) (hi lo hi' lo' : ℕ)
    → All IsByte msg
    → hi < 256
    → lo < 256
    → hi' < 256
    → lo' < 256
    → crc16_loop msg (length msg) hi lo ≡ crc16_loop msg (length msg) hi' lo'
    → (hi ≡ hi') × (lo ≡ lo')
unfolding crc16_loop
loop_injective [] hi lo hi' lo' bytes h l h' l' e =
    ground (arith, bit_or_fields 8 hi lo l, bit_or_fields 8 hi' lo' l')
loop_injective (b ∷ msg) hi lo hi' lo' (k, bytes) h l h' l' e =
    let n = next_bytes hi lo b h l k in
    let n' = next_bytes hi' lo' b h' l' k in
    let ih = loop_injective msg _ _ _ _ bytes n.0 n.1 n'.0 n'.1 e in
    let back = next_injective hi lo b hi' lo' b h k h' k ih.0 ih.1 in
    (bit_xor_injective b hi hi' (bit_xor_comm b hi ∙ back.0 ∙ bit_xor_comm hi' b), back.1)

module _ (post : List ℕ) (bytes : All IsByte post) where
  pub one_byte :
      (a c hi lo : ℕ)
      → hi < 256
      → lo < 256
      → a < 256
      → c < 256
      → crc16_loop (a ∷ post) (suc (length post)) hi lo
        ≡ crc16_loop (c ∷ post) (suc (length post)) hi lo
      → a ≡ c
  unfolding crc16_loop
  one_byte a c hi lo h l ka kc e =
      let n = next_bytes hi lo a h l ka in
      let n' = next_bytes hi lo c h l kc in
      let same = loop_injective post _ _ _ _ bytes n.0 n.1 n'.0 n'.1 e in
      bit_xor_injective hi a c (next_injective hi lo a hi lo c h ka h kc same.0 same.1).0

  pub two_bytes :
      (a b c d hi lo : ℕ)
      → hi < 256
      → lo < 256
      → a < 256
      → b < 256
      → c < 256
      → d < 256
      → crc16_loop (a ∷ b ∷ post) (suc (suc (length post))) hi lo
        ≡ crc16_loop (c ∷ d ∷ post) (suc (suc (length post))) hi lo
      → (a ≡ c) × (b ≡ d)
  unfolding crc16_loop
  two_bytes a b c d hi lo h l ka kb kc kd e =
      let n = next_bytes hi lo a h l ka in
      let n' = next_bytes hi lo c h l kc in
      let m = next_bytes (next_hi hi lo a) (next_lo hi a) b n.0 n.1 kb in
      let m' = next_bytes (next_hi hi lo c) (next_lo hi c) d n'.0 n'.1 kd in
      let same = loop_injective post _ _ _ _ bytes m.0 m.1 m'.0 m'.1 e in
      let inner =
        next_injective (next_hi hi lo a) (next_lo hi a) b (next_hi hi lo c) (next_lo hi c) d n.0 kb
          n'.0 kd same.0 same.1 in
      let ac =
        bit_xor_injective hi a c
          (table_lo_injective _ _ (bit_xor-lt 8 hi a h ka) (bit_xor-lt 8 hi c h kc) inner.1) in
      (
        ac,
        bit_xor_injective (next_hi hi lo a) b d
            (inner.0 ∙ ap (λ y. bit_xor (next_hi hi lo y) d) (sym ac)),
      )

-- The running bytes after a whole message.
unfoldable pub after : List ℕ → ℕ → ℕ → ℕ × ℕ
after [] hi lo = (hi, lo)
after (b ∷ msg) hi lo = after msg (next_hi hi lo b) (next_lo hi b)

pub after_bytes :
    (msg : List ℕ) (hi lo : ℕ)
    → All IsByte msg
    → hi < 256
    → lo < 256
    → ((after msg hi lo).0 < 256) × ((after msg hi lo).1 < 256)
unfolding after
after_bytes [] hi lo bytes h l = (h, l)
after_bytes (b ∷ msg) hi lo (k, bytes) h l =
    let n = next_bytes hi lo b h l k in after_bytes msg _ _ bytes n.0 n.1

pub loop_after :
    (pre s : List ℕ) (hi lo : ℕ)
    → crc16_loop (pre ++ s) (length (pre ++ s)) hi lo
      ≡ crc16_loop s (length s) (after pre hi lo).0 (after pre hi lo).1
unfolding crc16_loop after
loop_after [] s hi lo = refl
loop_after (b ∷ pre) s hi lo = loop_after pre s (next_hi hi lo b) (next_lo hi b)
