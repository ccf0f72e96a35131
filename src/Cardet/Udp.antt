-- ===== src/Cardet/Udp.antt =====
-- iMX287Learn/cardet/udp/udpser.c: the count of the channel, sent as text once a second. The
-- answers of the socket's calls are arguments; `none` is the end of the program where they fail.
use linuxapp.Common.Int.{is_negative, ℤ, pos, negsuc, ltb_ℤ, pos_part, neg_part}
use linuxapp.Common.{
  ℕ, zero, suc, ◌+◌, ◌-◌, ◌/◌, ◌%◌, ◌^◌, ◌<◌, ◌≤◌, ◌==◌, false, inl, inr, Bool-cases, ltb,
  if◌then◌else◌, Option, none, some, ◌>>=◌, List, [], ◌∷◌, ◌++◌, length, replicate, drop, ◌≡◌, refl,
  ap, ◌∙◌, arith,
}
use linuxapp.Common.Decimal.{decimal, number_from, number_from-decimal}
use linuxapp.Common.Timeval.{Timeval}
use linuxapp.Cardet.Gettime.{Reading, get_timeval_ms, now_after, now_plus}
use linuxapp.Cardet.Detec.{Cardet, fns_cardet_getflows}

-- `fns_udp_init`: the socket, where socket, setsockopt and bind succeed.
unfoldable pub fns_udp_init : ℤ → ℤ → ℤ → Option ℤ
fns_udp_init sockfd option bound =
    if is_negative sockfd
    then none
    else if is_negative option
    then none
    else if is_negative bound
    then none
    else some sockfd

-- `%04d`: at least four characters, the sign among them.
unfoldable pub padded : ℤ → List ℕ
unfolding decimal
padded (pos n) = let ds = decimal 10 n in replicate (4 - length ds) b'0' ++ ds
padded (negsuc n) = let ds = decimal 10 (n + 1) in b'-' ∷ (replicate (3 - length ds) b'0' ++ ds)

-- `ch:` and `,flow(s):`
abbrev pub channel_label : List ℕ
channel_label = b'c' ∷ b'h' ∷ b':' ∷ []

abbrev pub flows_label : List ℕ
flows_label = b',' ∷ b'f' ∷ b'l' ∷ b'o' ∷ b'w' ∷ b'(' ∷ b's' ∷ b')' ∷ b':' ∷ []

-- The text that sprintf writes for a channel.
unfoldable pub report : ℤ → ℤ → List ℕ
unfolding padded
report ch flows = channel_label ++ padded ch ++ flows_label ++ padded flows

-- `fns_udp_sndonce`: the bytes sent, if sendto answers at least 1.
unfoldable pub fns_udp_sndonce : ℤ → List ℕ → Option (List ℕ)
fns_udp_sndonce sent buf = if ltb_ℤ sent (pos 1) then none else some buf

-- `fns_udp_loop`: the one channel's text, which stands at the start of the zeroed buffer.
unfoldable pub fns_udp_loop : ℤ → Cardet → Option (List ℕ)
unfolding report fns_udp_sndonce
fns_udp_loop sent c = do f ← fns_cardet_getflows (pos 0) c; fns_udp_sndonce sent (report (pos 0) f)

-- `app_udp_loop`: what it sends, if its second is over, and the next deadline.
unfoldable pub app_udp_loop :
    ℤ → Reading → Reading → Timeval → Cardet → Option (List (List ℕ) × Timeval)
unfolding fns_udp_loop
app_udp_loop sent now later fnstick c =
    if now_after now fnstick
    then (do text ← fns_udp_loop sent c; some (text ∷ [], now_plus later (get_timeval_ms 1000)))
    else some ([], fnstick)

unfoldable pub read_number : List ℕ → ℤ
unfolding number_from
read_number [] = pos 0
read_number (c ∷ cs) =
    if c == b'-' then negsuc (number_from 0 cs - 1) else pos (number_from 0 (c ∷ cs))

number_from-zeros :
    (k : ℕ) (cs : List ℕ) → number_from 0 (replicate k b'0' ++ cs) ≡ number_from 0 cs
unfolding number_from
number_from-zeros zero cs = refl
number_from-zeros (suc k) cs = number_from-zeros k cs

-- No character is below the digits, so none is a minus sign.
IsUnsigned : List ℕ → Type 0
IsUnsigned [] = Unit
IsUnsigned (c ∷ cs) = (b'0' ≤ c) × IsUnsigned cs

append-IsUnsigned : (cs ds : List ℕ) → IsUnsigned cs → IsUnsigned ds → IsUnsigned (cs ++ ds)
unfolding IsUnsigned
append-IsUnsigned [] ds h k = k
append-IsUnsigned (c ∷ cs) ds (h, hs) k = (h, append-IsUnsigned cs ds hs k)

replicate-IsUnsigned : (k : ℕ) → IsUnsigned (replicate k b'0')
unfolding IsUnsigned
replicate-IsUnsigned zero = tt
replicate-IsUnsigned (suc k) = (omega arith, replicate-IsUnsigned k)

decimal-IsUnsigned : (k n : ℕ) → IsUnsigned (decimal k n)
unfolding IsUnsigned decimal
decimal-IsUnsigned zero n = tt
decimal-IsUnsigned (suc k) n = elim (Bool-cases (ltb n 10)) [
  | inl e ↦ rw e (omega arith, tt)
  | inr e ↦ rw e (
      append-IsUnsigned (decimal k (n / 10)) ((b'0' + n % 10) ∷ []) (decimal-IsUnsigned k (n / 10))
        (omega arith, tt))
]

read_unsigned : (cs : List ℕ) → IsUnsigned cs → read_number cs ≡ pos (number_from 0 cs)
unfolding read_number IsUnsigned number_from
read_unsigned [] h = refl
read_unsigned (c ∷ cs) (h, hs) = rw (no_sign c h) refl
  where
    no_sign : (c : ℕ) → b'0' ≤ c → (c == b'-') ≡ false
    no_sign c h = ground arith

-- A receiver reads from the text of a number of up to ten digits, as every int is, the number.
pub read_number-padded : (z : ℤ) → pos_part z + neg_part z < 10 ^ 10 → read_number (padded z) ≡ z
unfolding padded
read_number-padded (pos n) h =
    read_unsigned _ (
      append-IsUnsigned _ (decimal 10 n) (replicate-IsUnsigned (4 - length (decimal 10 n)))
        (decimal-IsUnsigned 10 n))
    ∙ ap pos (
        number_from-zeros (4 - length (decimal 10 n)) (decimal 10 n)
        ∙ number_from-decimal 10 n (omega arith))
read_number-padded (negsuc n) h =
    unfold read_number in
    ap (λ m. negsuc (m - 1))
      (number_from-zeros (3 - length (decimal 10 (n + 1))) (decimal 10 (n + 1))
        ∙ number_from-decimal 10 (n + 1) (omega arith))
    ∙ ap negsuc (omega arith)

-- From the seventeenth character of a text on a receiver reads the channel's count.
pub read_number-report :
    (z : ℤ) → pos_part z + neg_part z < 10 ^ 10 → read_number (drop 16 (report (pos 0) z)) ≡ z
unfolding report
read_number-report z k = labels ∙ read_number-padded z k
  where
    labels : read_number (drop 16 (report (pos 0) z)) ≡ read_number (padded z)
    labels = unfold padded decimal in refl

pub fns_udp_loop-report :
    (sent : ℤ) (c : Cardet)
    → ltb_ℤ sent (pos 1) ≡ false
    → fns_udp_loop sent c ≡ some (report (pos 0) c.flows)
unfolding fns_udp_loop fns_cardet_getflows fns_udp_sndonce
fns_udp_loop-report sent c ok = rw ok refl

-- A poll whose send succeeds sends one text, from whose seventeenth character on a receiver reads
-- the channel's count, if that has at most ten digits.
flows_received :
    (sent : ℤ) (c : Cardet)
    → ltb_ℤ sent (pos 1) ≡ false
    → pos_part c.flows + neg_part c.flows < 10 ^ 10
    → (text : List ℕ) × (fns_udp_loop sent c ≡ some text) × (read_number (drop 16 text) ≡ c.flows)
flows_received sent c h k =
    (report (pos 0) c.flows, fns_udp_loop-report sent c h, read_number-report c.flows k)
