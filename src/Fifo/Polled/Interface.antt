-- ===== src/Fifo/Polled/Interface.antt =====
-- What the programs of fifo/doc/fifoexa0 assume of a named pipe that is opened with O_NONBLOCK, and
-- a pipe that meets it.
use linuxapp.Common.{
  ℕ, ◌+◌, ◌≤◌, ◌<◌, ltb, Option, none, some, List, [], ◌∷◌, ◌++◌, length, take, drop, ◌≡◌, ◌⊎◌,
  refl, ap, inl, inr, arith, Bool-cases, if◌then◌else◌,
}

-- `none` is the result -1 of the call.
pub record NoWait : Type 1 where
  pub State : Type 0
  pub contents : State → List ℕ
  pub write : State → List ℕ → Option (ℕ × State)
  pub read : State → ℕ → Option (List ℕ × State)

-- The bytes that a write may have so that it is never divided.
abbrev pub pipe_buf : ℕ
pipe_buf = 4096

-- A short write is refused or done whole, and done if the pipe is empty. A read takes what it asks
-- for as far as there is so much; from an empty pipe it gets an error or, if no writer has the pipe
-- open, nothing.
pub record IsNoWait (P : NoWait) : Type 0 where
  pub sent :
      (s : P.State) (bs : List ℕ)
      → length bs ≤ pipe_buf
      → (P.write s bs ≡ none)
        ⊎ ((t : P.State) × (P.write s bs ≡ some (length bs, t))
            × (P.contents t ≡ P.contents s ++ bs))
  pub sent_first :
      (s : P.State) (bs : List ℕ)
      → length bs ≤ pipe_buf
      → P.contents s ≡ []
      → (t : P.State) × (P.write s bs ≡ some (length bs, t)) × (P.contents t ≡ bs)
  pub taken :
      (s : P.State) (n : ℕ)
      → 0 < length (P.contents s)
      → (t : P.State) × (P.read s n ≡ some (take n (P.contents s), t))
        × (P.contents t ≡ drop n (P.contents s))
  pub nothing :
      (s : P.State) (n : ℕ)
      → P.contents s ≡ []
      → (P.read s n ≡ none) ⊎ ((t : P.State) × (P.read s n ≡ some ([], t)) × (P.contents t ≡ []))

abbrev put : List ℕ → List ℕ → Option (ℕ × List ℕ)
put s bs = if ltb pipe_buf (length s + length bs) then none else some (length bs, s ++ bs)

abbrev get : List ℕ → ℕ → Option (List ℕ × List ℕ)
get [] n = none
get (b ∷ s) n = some (take n (b ∷ s), drop n (b ∷ s))

-- A pipe that holds a page.
abbrev pub page : NoWait
page = record { State = List ℕ; contents = λ s. s; write = put; read = get }

page_sent :
    (s bs : List ℕ)
    → (page.write s bs ≡ none)
      ⊎ ((t : List ℕ) × (page.write s bs ≡ some (length bs, t)) × (t ≡ s ++ bs))
page_sent s bs = elim (Bool-cases (ltb pipe_buf (length s + length bs))) [
  | inl full ↦ inl (rw full refl)
  | inr room ↦ inr (s ++ bs, rw room refl, refl)
]

page_sent_first :
    (s bs : List ℕ)
    → length bs ≤ pipe_buf
    → s ≡ []
    → (t : List ℕ) × (page.write s bs ≡ some (length bs, t)) × (t ≡ bs)
page_sent_first s bs short empty = elim (Bool-cases (ltb pipe_buf (length s + length bs))) [
  | inl full ↦
      let none_there : length s ≡ 0 = ap length empty in
      absurd (ground (arith, full, short, none_there))
  | inr room ↦ (s ++ bs, rw room refl, rw empty refl)
]

page_taken :
    (s : List ℕ) (n : ℕ)
    → 0 < length s
    → (t : List ℕ) × (page.read s n ≡ some (take n s, t)) × (t ≡ drop n s)
page_taken [] n h = absurd (omega arith)
page_taken (b ∷ s) n h = (drop n (b ∷ s), refl, refl)

pub page-IsNoWait : IsNoWait page
page-IsNoWait = record {
  sent = λ s bs short. page_sent s bs;
  sent_first = page_sent_first;
  taken = page_taken;
  nothing = λ s n empty. rw empty (inl refl);
}
