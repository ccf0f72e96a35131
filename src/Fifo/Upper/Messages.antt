-- ===== src/Fifo/Upper/Messages.antt =====
-- Messages in memory, and the server's loop over a text.
use linuxapp.Common.{
  ℕ, suc, ◌+◌, ◌*◌, ◌/◌, ◌%◌, ◌^◌, ◌<◌, ◌==◌, some, List, [], ◌∷◌, ◌++◌, map, length, ◌≡◌, refl, ap,
  sym, ◌∙◌, arith, inl, inr, Bool-cases, ==_iff, take-append, drop-append, length-append,
  length-map,
}
use linuxapp.Common.CString.{IsText}
use linuxapp.Fifo.Upper.{Message, text_size, message_size, message_bytes, message_at, upper}

pub message_at-message_bytes :
    (m : Message)
    → m.client_pid < 2 ^ 32
    → length m.text ≡ text_size
    → message_at (message_bytes m) ≡ some m
unfolding message_at message_bytes
message_at-message_bytes m small whole = ap some (
    rw (← whole) (
      rw (take-append m.text m.padding)
        (rw (drop-append m.text m.padding) (ap (λ n. record m { client_pid = n }) number))))
  where
    number :
        m.client_pid % 256
          + m.client_pid / 2 ^ 8 % 256 * 2 ^ 8
          + m.client_pid / 2 ^ 16 % 256 * 2 ^ 16
          + m.client_pid / 2 ^ 24 % 256 * 2 ^ 24
        ≡ m.client_pid
    number = omega (arith, small)

module _ (toupper : ℕ → ℕ) where
  pub upper_lem :
      (cs rest : List ℕ)
      → IsText cs
      → upper toupper (cs ++ 0 ∷ rest) ≡ some (map toupper cs ++ 0 ∷ rest)
  unfolding upper IsText
  upper_lem [] rest h = refl
  upper_lem (c ∷ cs) rest (h, hs) = elim (Bool-cases (c == 0)) [
    | inl e ↦ absurd (h ((==_iff c 0).0 e))
    | inr e ↦ rw e (rw (upper_lem cs rest hs) refl)
  ]

  pub length-upper :
      (cs rest : List ℕ) → length (map toupper cs ++ 0 ∷ rest) ≡ length (cs ++ 0 ∷ rest)
  length-upper cs rest =
      length-append (map toupper cs) (0 ∷ rest)
      ∙ ap (λ n. n + suc (length rest)) (length-map cs toupper)
      ∙ sym (length-append cs (0 ∷ rest))

pub length-message :
    (m : Message)
    → length m.text ≡ text_size
    → length m.padding ≡ 3
    → length (message_bytes m) ≡ message_size
unfolding message_bytes
length-message m whole fill = omega (arith, length-append m.text m.padding, whole, fill)
