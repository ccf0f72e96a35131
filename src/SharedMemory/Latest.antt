-- ===== src/SharedMemory/Latest.antt =====
-- What stands in the block while the parent writes the time into it and children join.
use linuxapp.Common.{
  ℕ, ◌+◌, ◌*◌, ◌/◌, ◌%◌, ◌-◌, ◌<◌, ◌^◌, true, false, some, List, [], ◌∷◌, ◌++◌, length, take, drop,
  ◌≡◌, refl, ap, ap₂, ◌∙◌, arith,
}
use linuxapp.Common.CString.{zeros, fitted}
use linuxapp.Common.Timeval.{Timeval, zero_time}
use linuxapp.Processes.{Outcome, running, go_on}
use linuxapp.SharedMemory.Interface.{Block, IsWorking}
use linuxapp.SharedMemory.{
  shm_app_size, timeval_bytes, read_time, parent_init, child_init, parent_round,
}

-- A round of the parent's loop at a time, or the start of a child.
pub data Step : Type 0 where
  tick : Timeval → Step
  join : Step

-- The time of the last round, and where there was none a given one.
unfoldable pub last_time : Timeval → List Step → Timeval
last_time tv [] = tv
last_time tv (tick now ∷ steps) = last_time now steps
last_time tv (join ∷ steps) = last_time tv steps

-- The times of the rounds fit two 32-bit words.
unfoldable pub IsRepresentable : List Step → Type 0
IsRepresentable [] = Unit
IsRepresentable (tick now ∷ steps) =
    (now.tv_sec < 2 ^ 32) × (now.tv_usec < 2 ^ 32) × IsRepresentable steps
IsRepresentable (join ∷ steps) = IsRepresentable steps

-- The block while it holds a time.
abbrev pub block_with : Timeval → List ℕ
block_with tv = timeval_bytes tv ++ zeros 248

word_bytes-sum :
    (w : ℕ)
    → w < 2 ^ 32
    → w % 256 + w / 256 % 256 * 256 + w / 65536 % 256 * 65536 + w / 16777216 % 256 * 16777216 ≡ w
word_bytes-sum w h = omega arith

read_time-block :
    (tv : Timeval) → tv.tv_sec < 2 ^ 32 → tv.tv_usec < 2 ^ 32 → read_time (block_with tv) ≡ some tv
unfolding read_time
read_time-block tv h k =
    ap₂ (λ s u. some (record { tv_sec = s; tv_usec = u })) (word_bytes-sum tv.tv_sec h)
      (word_bytes-sum tv.tv_usec k)

last_time-fits :
    (tv : Timeval) (steps : List Step)
    → (tv.tv_sec < 2 ^ 32) × (tv.tv_usec < 2 ^ 32)
    → IsRepresentable steps
    → ((last_time tv steps).tv_sec < 2 ^ 32) × ((last_time tv steps).tv_usec < 2 ^ 32)
unfolding last_time IsRepresentable
last_time-fits tv [] h fits = h
last_time-fits tv (tick now ∷ steps) h (a, b, fits) = last_time-fits now steps (a, b) fits
last_time-fits tv (join ∷ steps) h fits = last_time-fits tv steps h fits

module _ (P : Block) where
  open P use {State, contents}

  -- The steps one after the other; a child that fails ends the run.
  unfoldable pub run : List Step → State → Outcome State
  run [] s = running s
  run (tick now ∷ steps) s = run steps (parent_round P now s)
  run (join ∷ steps) s = go_on (child_init P s) (run steps)

  -- The parent's start, and the steps after it.
  unfoldable pub system : List Step → State → Outcome State
  unfolding run
  system steps s = go_on (parent_init P s) (run steps)

module _ (P : Block) (works : IsWorking P) where
  open P use {State, contents}

  -- Whatever an earlier run has left, the parent starts from a zeroed block.
  pub parent_init-zeros :
      (s : State) → (t : State) × (parent_init P s ≡ running t) × (contents t ≡ zeros shm_app_size)
  unfolding parent_init
  parent_init-zeros s =
      let (t, e1, c1) = works.opened true s in
      let (u, e2, c2) = works.truncated shm_app_size t in
      let (v, e3, c3) = works.mapped shm_app_size u in
      (v, rw e1 (rw e2 (rw e3 refl)), c3 ∙ c2 ∙ ap (λ c. take 256 c ++ zeros (256 - length c)) c1)

  -- A child finds the block as it is.
  pub child_init-kept :
      (s : State)
      → length (contents s) ≡ shm_app_size
      → (t : State) × (child_init P s ≡ running t) × (contents t ≡ contents s)
  unfolding child_init
  child_init-kept s whole =
      let (t, e1, c1) = works.opened false s in
      let (u, e2, c2) = works.truncated shm_app_size t in
      let (v, e3, c3) = works.mapped shm_app_size u in
      (
        v,
        rw e1 (rw e2 (rw e3 refl)),
        c3 ∙ c2 ∙ ap (λ c. take 256 c ++ zeros (256 - length c)) c1 ∙ fitted 256 (contents s) whole,
      )

  pub run_block :
      (steps : List Step) (s : State) (tv : Timeval)
      → contents s ≡ block_with tv
      → (t : State) × (run P steps s ≡ running t) × (contents t ≡ block_with (last_time tv steps))
  unfolding run last_time parent_round
  run_block [] s tv c = (s, refl, c)
  run_block (tick now ∷ steps) s tv c = run_block steps (parent_round P now s) now (
      works.stored (timeval_bytes now) s (rw c (omega arith))
      ∙ ap (λ bs. timeval_bytes now ++ drop 8 bs) c)
  run_block (join ∷ steps) s tv c =
      let (t, e, kept) = child_init-kept s (ap length c) in
      let (u, e2, c2) = run_block steps t tv (kept ∙ c) in
      (u, ap (λ o. go_on o (run P steps)) e ∙ e2, c2)

  -- Where no call fails: from whatever an earlier run has left, once the parent has started, after
  -- any rounds of it and any starts of children, in any order, the block holds the time of the last
  -- round and zeros behind it, and a reader finds that time. Before the first round it is zero.
  pub system_lem :
      (steps : List Step) (s : State)
      → IsRepresentable steps
      → (t : State) × (system P steps s ≡ running t)
        × (contents t ≡ block_with (last_time zero_time steps))
        × (read_time (contents t) ≡ some (last_time zero_time steps))
  unfolding system
  system_lem steps s fits =
      let (u, e, zeroed) = parent_init-zeros s in
      let (t, e2, c) = run_block steps u zero_time zeroed in
      let (a, b) = last_time-fits zero_time steps (omega arith, omega arith) fits in
      (
        t,
        ap (λ o. go_on o (run P steps)) e ∙ e2,
        c,
        rw c (read_time-block (last_time zero_time steps) a b),
      )
