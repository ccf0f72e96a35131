-- ===== src/Fifo/Bulk/Sound.antt =====
-- What holds after every turn of the two programs.
use linuxapp.Common.{
  ℕ, suc, ◌+◌, ◌*◌, ◌≤◌, ◌<◌, ltb, Bool, true, false, some, List, [], ◌∷◌, length, ◌≡◌, refl, ◌⊎◌,
  inl, inr, arith, Bool-cases, ltb→lt, ◌∙◌, length-append, ap, lt→ltb,
}
use linuxapp.Common.Channel.{Pipe, IsFifo, IsWorking, read_all}
use linuxapp.Fifo.Stream.{Turn, writer, reader}
use linuxapp.Fifo.Bulk.{
  ten_meg, buffer_size, Transfer, write_round, read_round, transfer, opened, IsSound, IsBlocking,
}

module _ (P : Pipe) (waits : P.State → ℕ → Bool) (fifo : IsFifo P) (works : IsWorking P)
    (blocking : IsBlocking P waits) (buffer : List ℕ) (whole : length buffer ≡ buffer_size) where
  open P use {State, contents}

  another_block :
      (w : ℕ)
      → ((k : ℕ) × (w ≡ k * 4096) × (k ≤ 2560))
      → w < ten_meg
      → (k : ℕ) × (w + 4096 ≡ k * 4096) × (k ≤ 2560)
  another_block w (k, e, le) small = (suc k, omega arith, omega arith)

  still_open : (b : Transfer P waits) → IsSound P waits b → b.written < ten_meg → b.closed ≡ false
  still_open b sound more = elim sound.closing [
    | inl f ↦ f
    | inr w ↦ absurd (omega (arith, more, w))
  ]

  still_reading :
      (b : Transfer P waits) → IsSound P waits b → b.written < ten_meg → b.finished ≡ false
  still_reading b sound more = elim sound.ending [
    | inl f ↦ f
    | inr (over, z) ↦ absurd (cc (still_open b sound more, over))
  ]

  all_written :
      (w : ℕ) → ((k : ℕ) × (w ≡ k * 4096) × (k ≤ 2560)) → ltb w ten_meg ≡ false → w ≡ ten_meg
  all_written w (k, e, le) enough = ground arith

  none_left : (n : ℕ) → ltb 0 n ≡ false → n ≡ 0
  none_left n h = ground arith

  -- A write that does not wait, and a read that finds bytes.
  pub write_more :
      (b : Transfer P waits)
      → b.written < ten_meg
      → waits b.pipe buffer_size ≡ false
      → (t : State) × (write_round P waits buffer b
          ≡ some (record b { pipe = t; written = b.written + 4096 }))
        × (length (contents t) ≡ length (contents b.pipe) + 4096)
  unfolding write_round
  write_more b more room =
      let (n, t, e) = blocking.goes_on b.pipe buffer (rw whole room) in
      let same = fifo.contents-write b.pipe t buffer n e in
      let all : n ≡ 4096 = fifo.length-write b.pipe t buffer n e ∙ whole in
      (
        t,
        rw (lt→ltb b.written ten_meg more)
            (rw room (rw e (ap (λ m. some (record b { pipe = t; written = b.written + m })) all))),
        rw same
            (length-append (contents b.pipe) buffer ∙ ap (◌+◌ (length (contents b.pipe))) whole),
      )

  read_some :
      (b : Transfer P waits)
      → 0 < length (contents b.pipe)
      → (t : State) × (bytes : List ℕ) × (read_round P waits b
          ≡ some (record b { pipe = t; received = b.received + length bytes }))
        × (length (contents b.pipe) ≡ length bytes + length (contents t))
  unfolding read_round
  read_some b there =
      let (bytes, t, e) = works.was_read b.pipe buffer_size there in
      (
        t,
        bytes,
        rw (lt→ltb 0 (length (contents b.pipe)) there) (rw e refl),
        ap length (fifo.contents-read b.pipe t bytes buffer_size e)
            ∙ length-append bytes (contents t),
      )

  -- A read that asks for all that there is.
  pub read_more :
      (b : Transfer P waits)
      → 0 < length (contents b.pipe)
      → length (contents b.pipe) ≤ buffer_size
      → (t : State) × (read_round P waits b
          ≡ some (record b { pipe = t; received = b.received + length (contents b.pipe) }))
        × (contents t ≡ [])
  unfolding read_round
  read_more b there fits =
      let (t, e, empty) = read_all P fifo works b.pipe buffer_size there fits in
      (t, rw (lt→ltb 0 (length (contents b.pipe)) there) (rw e refl), empty)

  write_round-IsSound :
      (b : Transfer P waits)
      → IsSound P waits b
      → (c : Transfer P waits) × (write_round P waits buffer b ≡ some c) × IsSound P waits c
  unfolding write_round
  write_round-IsSound b sound = elim (Bool-cases (ltb b.written ten_meg)) [
    | inl more ↦ elim (Bool-cases (waits b.pipe buffer_size)) [
      | inr room ↦
          let small = ltb→lt b.written ten_meg more in
          let (t, e, added) = write_more b small room in
          (
            record b { pipe = t; written = b.written + 4096 },
            e,
            record {
              balance = omega (arith, added, sound.balance);
              blocks = another_block b.written sound.blocks small;
              closing = inl (still_open b sound small);
              ending = inl (still_reading b sound small);
            },
          )
      | inl full ↦ (b, rw more (rw full refl), sound)
    ]
    | inr enough ↦ (
      record b { closed = true },
      rw enough refl,
      record {
        balance = sound.balance;
        blocks = sound.blocks;
        closing = inr (all_written b.written sound.blocks enough);
        ending = elim sound.ending [ inl f ↦ inl f | inr (c, z) ↦ inr (refl, z) ];
      },
    )
  ]

  read_round-IsSound :
      (b : Transfer P waits)
      → IsSound P waits b
      → (c : Transfer P waits) × (read_round P waits b ≡ some c) × IsSound P waits c
  unfolding read_round
  read_round-IsSound b sound = elim (Bool-cases (ltb 0 (length (contents b.pipe)))) [
    | inl there ↦
        let more = ltb→lt 0 (length (contents b.pipe)) there in
        let (t, bytes, e, parts) = read_some b more in
        (
          record b { pipe = t; received = b.received + length bytes },
          e,
          record {
            balance = omega (arith, sound.balance, parts);
            blocks = sound.blocks;
            closing = sound.closing;
            ending = elim sound.ending [
              | inl f ↦ inl f
              | inr (c, z) ↦ absurd (omega (arith, z, more))
            ];
          },
        )
    | inr none_there ↦ elim (Bool-cases b.closed) [
      | inl over ↦ (
        record b { finished = true },
        rw none_there (rw over refl),
        record {
          balance = sound.balance;
          blocks = sound.blocks;
          closing = sound.closing;
          ending = inr (over, none_left (length (contents b.pipe)) none_there);
        },
      )
      | inr open_still ↦ (b, rw none_there (rw open_still refl), sound)
    ]
  ]

  pub transfer-IsSound :
      (turns : List Turn) (b : Transfer P waits)
      → IsSound P waits b
      → (c : Transfer P waits) × (transfer P waits buffer turns b ≡ some c) × IsSound P waits c
  unfolding transfer
  transfer-IsSound [] b sound = (b, refl, sound)
  transfer-IsSound (writer ∷ turns) b sound =
      let (c, e, sound') = write_round-IsSound b sound in
      let (d, e2, sound'') = transfer-IsSound turns c sound' in (d, rw e e2, sound'')
  transfer-IsSound (reader ∷ turns) b sound =
      let (c, e, sound') = read_round-IsSound b sound in
      let (d, e2, sound'') = transfer-IsSound turns c sound' in (d, rw e e2, sound'')

  pub opened-IsSound : (s : State) → contents s ≡ [] → IsSound P waits (opened P waits s)
  opened-IsSound s empty = record {
    balance = rw empty refl;
    blocks = (0, refl, omega arith);
    closing = inl refl;
    ending = inl refl;
  }

  pub finished_all :
      (b : Transfer P waits) → IsSound P waits b → (b.finished ≡ false) ⊎ (b.received ≡ ten_meg)
  finished_all b sound = elim sound.ending [
    | inl f ↦ inl f
    | inr (over, z) ↦ elim sound.closing [
      | inl still ↦ absurd (cc (still, over))
      | inr w ↦ inr (omega (arith, sound.balance, w, z))
    ]
  ]
