-- ===== src/FileOpt/Copy.antt =====
-- What a run of the program prints, and what it leaves behind.
use linuxapp.Common.{
  ℕ, zero, suc, ◌<◌, ◌≤◌, Option, none, some, List, [], ◌∷◌, ◌++◌, length, take, drop, ◌≡◌, ◌≢◌,
  refl, sym, ap, ◌∙◌, arith, inl, inr, length-append, length-drop,
}
use linuxapp.Common.CString.{strlen, IsText, IsText-append, IsText-drop, c_string-zeros}
use linuxapp.Common.Int.{ℤ, pos, is_negative-pos}
use linuxapp.FileOpt.Interface.{Files, writing, reading, or_empty, IsWorking}
use linuxapp.FileOpt.{hello, save, show, main, Line}
use linuxapp.Processes.{running}

take_whole : (n : ℕ) (xs : List ℕ) → length xs ≤ n → take n xs ≡ xs
take_whole zero [] h = refl
take_whole (suc n) [] h = refl
take_whole zero (x ∷ xs) h = absurd (omega arith)
take_whole (suc n) (x ∷ xs) h = ap (◌∷◌ x) (take_whole n xs (omega arith))

-- A descriptor that was closed before another one was used and closed is closed still.
first_closed :
    (n : ℕ) (before after : ℤ → Option ℕ)
    → after (pos n) ≡ none
    → ((i : ℤ) → i ≢ pos n → after i ≡ before i)
    → before (pos 0) ≡ none
    → after (pos 0) ≡ none
first_closed zero before after gone same h = gone
first_closed (suc n) before after gone same h = same (pos 0) (λ e. cc) ∙ h

-- The bytes of the file after the text has been written over its start.
abbrev pub overwritten : List ℕ → List ℕ
overwritten old = hello ++ drop 11 old

hello-IsText : IsText hello
unfolding IsText
hello-IsText = omega arith

module _ (F : Files) (works : IsWorking F) where
  open F use {State, contents, offset}

  -- The text is in the file; descriptor 0 has been closed in place of the file's.
  pub saved :
      (s : State)
      → offset s (pos 0) ≢ none
      → (n : ℕ) × (t : State) × (save F s ≡ some (running t))
        × (contents t ≡ some (overwritten (or_empty (contents s))))
        × (offset s (pos n) ≡ none)
        × (offset t (pos n) ≡ some 11)
        × (offset t (pos 0) ≡ none)
  unfolding save strlen
  saved s stdin =
      let (n, s1, e1, free, start, same1, c1) = works.opened writing s (inl refl) in
      let (s2, e2, there, same2, c2) = works.written n hello (or_empty (contents s)) s1 c1 start in
      let (s3, e3, same3, c3) = works.synced n 11 s2 there in
      let (ret, s4, e4, gone, same4, c4) = works.closed (pos 0) s3 in
      let other : pos n ≢ pos 0 = λ e. stdin (ap (offset s) (sym e) ∙ free) in
      (
        n,
        s4,
        rw e1 (rw (is_negative-pos n) (rw e2 (rw e3 (rw e4 refl)))),
        c4 ∙ c3 ∙ c2,
        free,
        same4 (pos n) other ∙ same3 (pos n) ∙ there,
        gone,
      )

  -- A file of text that fits the buffer is printed whole; other descriptors stay as they are.
  pub shown :
      (s : State) (c : List ℕ)
      → contents s ≡ some c
      → IsText c
      → length c < 1024
      → offset s (pos 0) ≡ none
      → (t : State) × (show F s ≡ some (running (record { bytes = pos (length c); buff = c }, t)))
        × (contents t ≡ some c)
        × ((i : ℤ) → offset s i ≢ none → offset t i ≡ offset s i)
        × (offset t (pos 0) ≡ none)
  unfolding show
  shown s c file text short closed_already =
      let exists : contents s ≢ none = cc in
      let (n, s1, e1, free, start, same1, c1) = works.opened reading s (inr exists) in
      let kept : contents s1 ≡ some c = c1 ∙ ap (λ o. some (or_empty o)) file in
      let (s2, e2, same2, c2) = works.was_read n 1024 c s1 kept start in
      let (ret, s3, e3, gone, same3, c3) = works.closed (pos n) s2 in
      let all : take 1024 c ≡ c = take_whole 1024 c (omega (arith, short)) in
      let line = c_string-zeros 1024 c text short in
      let same : (i : ℤ) → i ≢ pos n → offset s3 i ≡ offset s i =
        λ i ne. same3 i ne ∙ same2 i ne ∙ same1 i ne in
      (
        s3,
        rw e1 (
            rw (is_negative-pos n) (
              rw e2 (rw (is_negative-pos (length (take 1024 c))) (rw all (rw line (rw e3 refl)))))),
        c3 ∙ c2 ∙ kept,
        λ i busy. same i (λ e. busy (ap (offset s) e ∙ free)),
        first_closed n (offset s) (offset s3) gone same closed_already,
      )

  -- Where no call fails, standard input is open, and the file is missing or held a text of less
  -- than 1024 bytes: the program ends, and what it prints is its text and, behind it, what the file
  -- held past as many bytes. It leaves the descriptor it wrote to open, and standard input closed.
  pub main_lem :
      (s : State)
      → offset s (pos 0) ≢ none
      → IsText (or_empty (contents s))
      → length (or_empty (contents s)) < 1024
      → (line : Line) × (t : State) × (n : ℕ) × (main F s ≡ some (running (line, t)))
        × (line.buff ≡ overwritten (or_empty (contents s)))
        × (line.bytes ≡ pos (length (overwritten (or_empty (contents s)))))
        × (contents t ≡ some (overwritten (or_empty (contents s))))
        × (offset s (pos n) ≡ none)
        × (offset t (pos n) ≡ some 11)
        × (offset t (pos 0) ≡ none)
  unfolding main
  main_lem s stdin text short =
      let old = or_empty (contents s) in
      let (n, u, e, file, free, there, closed_now) = saved s stdin in
      let clean : IsText (overwritten old) =
        IsText-append hello (drop 11 old) hello-IsText (IsText-drop 11 old text) in
      let fits : length (overwritten old) < 1024 =
        omega (arith, length-append hello (drop 11 old), length-drop 11 old, short) in
      let (t, e2, file2, same, gone) = shown u (overwritten old) file clean fits closed_now in
      (
        record { bytes = pos (length (overwritten old)); buff = overwritten old },
        t,
        n,
        rw e e2,
        refl,
        refl,
        file2,
        free,
        same (pos n) (λ no. cc) ∙ there,
        gone,
      )
