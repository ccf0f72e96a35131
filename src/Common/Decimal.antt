-- ===== src/Common/Decimal.antt =====
-- Numbers in decimal digits, as printf writes and a reader reads them.
use linuxapp.Common.{
  ℕ, zero, suc, ◌+◌, ◌-◌, ◌*◌, ◌/◌, ◌%◌, ◌^◌, ◌<◌, ◌≤◌, ltb, leb, ◌&&◌, true, if◌then◌else◌, List,
  [], ◌∷◌, ◌++◌, length, length-append, ◌≡◌, refl, ap, ◌∙◌, arith, inl, inr, Bool-cases, ltb→lt,
}
use native.Mathlib.Nat.{pow-suc}

-- The decimal digits of a number, as characters; an int has at most ten.
unfoldable pub decimal : ℕ → ℕ → List ℕ
decimal zero n = []
decimal (suc k) n =
    let rest = decimal k (n / 10) in
    if ltb n 10 then (b'0' + n) ∷ [] else rest ++ (b'0' + n % 10) ∷ []

-- How a receiver reads a number.
unfoldable pub number_from : ℕ → List ℕ → ℕ
number_from acc [] = acc
number_from acc (c ∷ cs) = number_from (acc * 10 + (c - b'0')) cs

pub number_from-append :
    (acc : ℕ) (cs ds : List ℕ) → number_from acc (cs ++ ds) ≡ number_from (number_from acc cs) ds
unfolding number_from
number_from-append acc [] ds = refl
number_from-append acc (c ∷ cs) ds = number_from-append (acc * 10 + (c - b'0')) cs ds

pub number_from-decimal : (k n : ℕ) → n < 10 ^ k → number_from 0 (decimal k n) ≡ n
unfolding number_from decimal
number_from-decimal zero n h = omega (arith, h)
number_from-decimal (suc k) n h = elim (Bool-cases (ltb n 10)) [
  | inl e ↦ rw e (omega arith)
  | inr e ↦ rw e (
      number_from-append 0 (decimal k (n / 10)) ((b'0' + n % 10) ∷ [])
      ∙ ap (λ a. number_from a ((b'0' + n % 10) ∷ []))
          (number_from-decimal k (n / 10) (omega (arith, h, pow-suc 10 k)))
      ∙ omega arith)
]

-- The number at the start of a text, up to the first character that is no digit.
unfoldable pub leading_number : ℕ → List ℕ → ℕ
leading_number acc [] = acc
leading_number acc (c ∷ cs) =
    let more = leading_number (acc * 10 + (c - b'0')) cs in
    if leb b'0' c && leb c b'9' then more else acc

unfoldable AllDigits : List ℕ → Type 0
AllDigits [] = Unit
AllDigits (c ∷ cs) = (leb b'0' c && leb c b'9' ≡ true) × AllDigits cs

append-AllDigits : (cs ds : List ℕ) → AllDigits cs → AllDigits ds → AllDigits (cs ++ ds)
unfolding AllDigits
append-AllDigits [] ds h k = k
append-AllDigits (c ∷ cs) ds (h, hs) k = (h, append-AllDigits cs ds hs k)

digit_lem : (d : ℕ) → d < 10 → leb b'0' (b'0' + d) && leb (b'0' + d) b'9' ≡ true
digit_lem d h = ground arith

decimal-AllDigits : (k n : ℕ) → AllDigits (decimal k n)
unfolding AllDigits decimal
decimal-AllDigits zero n = tt
decimal-AllDigits (suc k) n = elim (Bool-cases (ltb n 10)) [
  | inl e ↦ rw e (digit_lem n (ltb→lt n 10 e), tt)
  | inr e ↦ rw e (
      append-AllDigits (decimal k (n / 10)) ((b'0' + n % 10) ∷ []) (decimal-AllDigits k (n / 10))
        (digit_lem (n % 10) (omega arith), tt))
]

leading_number-digits :
    (acc : ℕ) (cs rest : List ℕ)
    → AllDigits cs
    → leading_number acc (cs ++ b' ' ∷ rest) ≡ number_from acc cs
unfolding leading_number AllDigits number_from
leading_number-digits acc [] rest h = refl
leading_number-digits acc (c ∷ cs) rest (h, hs) =
    rw h (leading_number-digits (acc * 10 + (c - b'0')) cs rest hs)

-- The number of a text that starts with its digits and a blank.
pub leading_number-decimal :
    (k n : ℕ) (rest : List ℕ) → n < 10 ^ k → leading_number 0 (decimal k n ++ b' ' ∷ rest) ≡ n
leading_number-decimal k n rest h =
    leading_number-digits 0 (decimal k n) rest (decimal-AllDigits k n) ∙ number_from-decimal k n h

pub length-decimal : (k n : ℕ) → length (decimal k n) ≤ k
unfolding decimal
length-decimal zero n = omega arith
length-decimal (suc k) n = elim (Bool-cases (ltb n 10)) [
  | inl e ↦ rw e (omega arith)
  | inr e ↦ rw e (
      omega (
        arith,
        length-append (decimal k (n / 10)) ((b'0' + n % 10) ∷ []),
        length-decimal k (n / 10),
      ))
]
