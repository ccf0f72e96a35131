-- ===== src/Usrtypes/Ring.antt =====
-- The helpers on a ring's two indices, against the number of entries between them.
use linuxapp.Common.{
  ℕ, ◌+◌, ◌-◌, ◌%◌, ◌<◌, ◌≤◌, ◌==◌, ==_iff, leb, u8, true, false, inl, inr, Bool-cases,
  if◌then◌else◌, ◌≡◌, ◌≢◌, ◌↔◌, ap, ◌∙◌, arith,
}
use native.Mathlib.Nat.{mod_self, mod-eq_of_lt}
use linuxapp.Usrtypes.{isempty, isfull, delete_flush, add_flush}

-- The entries from sof up to eof, around the end of max slots.
unfoldable pub occupancy : ℕ → ℕ → ℕ → ℕ
occupancy sof eof max = if leb sof eof then eof - sof else eof + max - sof

-- The index after one of max slots.
unfoldable pub next : ℕ → ℕ → ℕ
next i max = if (i + 1) == max then 0 else i + 1

wrap : (i max : ℕ) → i < max → max ≤ 255 → u8 ((i + 1) % max) ≡ next i max
unfolding next
wrap i max h k = elim (Bool-cases ((i + 1) == max)) [
  | inl e ↦ rw e (ap (λ z. u8 (z % max)) ((==_iff (i + 1) max).0 e) ∙ ap u8 (mod_self max))
  | inr e ↦ rw e (ap u8 (mod-eq_of_lt (below e)) ∙ small)
]
  where
    below : ((i + 1) == max) ≡ false → i + 1 < max
    below e = ground arith

    small : u8 (i + 1) ≡ i + 1
    small = omega arith

pub delete_flush-next : (i max : ℕ) → i < max → max ≤ 255 → delete_flush i max ≡ next i max
unfolding delete_flush
delete_flush-next = wrap

pub next-lt : (i max : ℕ) → i < max → next i max < max
unfolding next
next-lt i max h = ground arith

add_flush-next : (i max : ℕ) → i < max → max ≤ 255 → add_flush i max ≡ next i max
unfolding add_flush
add_flush-next = wrap

pub occupancy-next_nonempty :
    (sof eof max : ℕ)
    → sof < max
    → eof < max
    → sof ≢ eof
    → occupancy sof eof max ≡ occupancy (next sof max) eof max + 1
unfolding occupancy next
occupancy-next_nonempty sof eof max h k ne = ground arith

pub isempty-occupancy :
    (sof eof max : ℕ)
    → sof < max
    → eof < max
    → (isempty sof eof ≡ true) ↔ (occupancy sof eof max ≡ 0)
unfolding isempty occupancy
isempty-occupancy sof eof max h k = ground arith

isfull-occupancy :
    (sof eof max : ℕ)
    → sof < max
    → eof < max
    → (isfull sof eof ≡ true) ↔ ((occupancy sof eof max + 1 ≡ max) × (sof ≢ 0))
unfolding isfull occupancy
isfull-occupancy sof eof max h k = ground arith

pub apart : (sof eof max : ℕ) → occupancy sof eof max ≢ 0 → sof ≢ eof
unfolding occupancy
apart sof eof max some_left same = some_left (ground arith)

occupancy-next_sof :
    (sof eof max : ℕ)
    → sof < max
    → eof < max
    → occupancy (next sof max) eof max
      ≡ (if occupancy sof eof max == 0 then max - 1 else occupancy sof eof max - 1)
unfolding occupancy next
occupancy-next_sof sof eof max h k = ground arith

occupancy-next_eof :
    (sof eof max : ℕ)
    → sof < max
    → eof < max
    → occupancy sof (next eof max) max
      ≡ (if (occupancy sof eof max + 1) == max then 0 else occupancy sof eof max + 1)
unfolding occupancy next
occupancy-next_eof sof eof max h k = ground arith

-- For indices below a size of at most 255: ISEMPTY holds exactly if the ring has no entry.
-- DELETE_FLUSH takes one entry away, and makes an empty ring full. ADD_FLUSH adds one, and makes a
-- ring with one slot left an empty one. ISFULL holds exactly if one slot is left and sof is not 0.
pub ring_lem :
    (sof eof max : ℕ)
    → sof < max
    → eof < max
    → max ≤ 255
    → ((isempty sof eof ≡ true) ↔ (occupancy sof eof max ≡ 0))
      × (occupancy (delete_flush sof max) eof max
          ≡ (if occupancy sof eof max == 0 then max - 1 else occupancy sof eof max - 1))
      × (occupancy sof (add_flush eof max) max
          ≡ (if (occupancy sof eof max + 1) == max then 0 else occupancy sof eof max + 1))
      × ((isfull sof eof ≡ true) ↔ ((occupancy sof eof max + 1 ≡ max) × (sof ≢ 0)))
ring_lem sof eof max h k small = (
  isempty-occupancy sof eof max h k,
  rw (delete_flush-next sof max h small) (occupancy-next_sof sof eof max h k),
  rw (add_flush-next eof max k small) (occupancy-next_eof sof eof max h k),
  isfull-occupancy sof eof max h k,
)
