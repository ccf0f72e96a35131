-- ===== src/Common/CString.antt =====
-- The strings of C in memory, and arrays of zeros.
use linuxapp.Common.{
  ℕ, zero, suc, ◌+◌, ◌-◌, ◌≤◌, ◌<◌, drop, take-append-drop, replicate_pos, ◌==◌, Option, none, some,
  ◌>>=◌, List, [], ◌∷◌, ◌++◌, length, take, replicate, ◌≡◌, ◌≢◌, refl, ap, ◌∙◌, arith, inl, inr,
  Bool-cases, ==_iff, if◌then◌else◌, take-append,
}

-- `strlen` of <string.h>: the bytes before the first 0; `none` where there is none in what may be
-- read.
unfoldable pub strlen : List ℕ → Option ℕ
strlen [] = none
strlen (c ∷ cs) = if c == 0 then some 0 else strlen cs >>= λ n. some (suc n)

-- What `printf("%s")` prints of a buffer.
unfoldable pub c_string : List ℕ → Option (List ℕ)
unfolding strlen
c_string buf = strlen buf >>= λ n. some (take n buf)

-- No byte of the list is 0.
unfoldable pub IsText : List ℕ → Type 0
IsText [] = Unit
IsText (c ∷ cs) = (c ≢ 0) × IsText cs

pub strlen_lem : (cs rest : List ℕ) → IsText cs → strlen (cs ++ 0 ∷ rest) ≡ some (length cs)
unfolding strlen IsText
strlen_lem [] rest t = refl
strlen_lem (c ∷ cs) rest (ne, t) = elim (Bool-cases (c == 0)) [
  | inl zero_byte ↦ absurd (ne ((==_iff c 0).0 zero_byte))
  | inr e ↦ rw e (rw (strlen_lem cs rest t) refl)
]

-- Without a 0 the search leaves what may be read.
pub strlen-none : (cs : List ℕ) → IsText cs → strlen cs ≡ none
unfolding strlen IsText
strlen-none [] t = refl
strlen-none (c ∷ cs) (ne, t) = elim (Bool-cases (c == 0)) [
  | inl zero_byte ↦ absurd (ne ((==_iff c 0).0 zero_byte))
  | inr e ↦ rw e (rw (strlen-none cs t) refl)
]

abbrev pub zeros : ℕ → List ℕ
zeros n = replicate n 0

pub take-zeros : (k n : ℕ) → k ≤ n → take k (zeros n) ≡ zeros k
take-zeros zero n h = refl
take-zeros (suc k) zero h = absurd (omega (arith, h))
take-zeros (suc k) (suc n) h = ap (◌∷◌ 0) (take-zeros k n (omega arith))

-- A list of the size asked for is neither cut nor filled up.
pub fitted : (n : ℕ) (xs : List ℕ) → length xs ≡ n → take n xs ++ zeros (n - length xs) ≡ xs
fitted zero [] h = refl
fitted zero (x ∷ xs) h = absurd (omega arith)
fitted (suc n) [] h = absurd (omega arith)
fitted (suc n) (x ∷ xs) h =
    ap (◌∷◌ x) (ap (λ k. take n xs ++ zeros k) one_less ∙ fitted n xs (omega arith))
  where
    one_less : suc n - length (x ∷ xs) ≡ n - length xs
    one_less = omega arith

pub zeros-append : (k n : ℕ) → zeros k ++ zeros n ≡ zeros (k + n)
zeros-append zero n = ap zeros (omega arith)
zeros-append (suc k) n = ap (◌∷◌ 0) (zeros-append k n) ∙ ap zeros later
  where
    later : suc (k + n) ≡ suc k + n
    later = omega arith

pub c_string_lem : (cs rest : List ℕ) → IsText cs → c_string (cs ++ 0 ∷ rest) ≡ some cs
unfolding c_string
c_string_lem cs rest t = rw (strlen_lem cs rest t) (rw (take-append cs (0 ∷ rest)) refl)

pub IsText-append : (cs ds : List ℕ) → IsText cs → IsText ds → IsText (cs ++ ds)
unfolding IsText
IsText-append [] ds h k = k
IsText-append (c ∷ cs) ds (h, hs) k = (h, IsText-append cs ds hs k)

pub IsText-parts : (cs ds : List ℕ) → IsText (cs ++ ds) → IsText cs × IsText ds
unfolding IsText
IsText-parts [] ds h = (tt, h)
IsText-parts (c ∷ cs) ds (h, hs) = let (front, back) = IsText-parts cs ds hs in ((h, front), back)

-- A buffer of n zeroed bytes that is not filled holds the text that was read and a 0 behind it.
pub c_string-zeros :
    (n : ℕ) (bs : List ℕ)
    → IsText bs
    → length bs < n
    → c_string (bs ++ zeros (n - length bs)) ≡ some bs
c_string-zeros n bs t h =
    ap (λ z. c_string (bs ++ z)) (replicate_pos (n - length bs) 0 (omega arith))
    ∙ c_string_lem bs (zeros (n - length bs - 1)) t

pub IsText-drop : (k : ℕ) (cs : List ℕ) → IsText cs → IsText (drop k cs)
IsText-drop k cs h = (IsText-parts (take k cs) (drop k cs) (rw (take-append-drop k cs) h)).1
