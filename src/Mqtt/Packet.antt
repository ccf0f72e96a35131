-- ===== src/Mqtt/Packet.antt =====
-- What drv_mqtt_sendPacket of mqtt_api.c prints of the parts that it sends.
use linuxapp.Common.{
  ℕ, zero, suc, ◌+◌, ◌-◌, ◌*◌, ◌/◌, ◌%◌, ◌<◌, ◌≤◌, ◌==◌, ltb, false, if◌then◌else◌, List, [], ◌∷◌,
  ◌++◌, length, All, drop, drop-append, ◌≡◌, refl, ap, ◌∙◌, arith, inl, inr, Bool-cases,
}
use mathlib.Core.List.{append_assoc}
use linuxapp.Common.Decimal.{decimal}

-- "%02X " of a byte.
abbrev pub hex_digit : ℕ → ℕ
hex_digit d = if ltb d 10 then b'0' + d else b'A' + (d - 10)

abbrev pub byte_text : ℕ → List ℕ
byte_text b = hex_digit (b / 16) ∷ hex_digit (b % 16) ∷ b' ' ∷ []

unfoldable pub bytes_text : List ℕ → List ℕ
bytes_text [] = []
bytes_text (b ∷ bs) = byte_text b ++ bytes_text bs

abbrev pub length_label : List ℕ
length_label = b'l' ∷ b'e' ∷ b'n' ∷ b'g' ∷ b't' ∷ b'h' ∷ b':' ∷ []

-- A part: its bytes, or just its length if it is long.
unfoldable pub part_text : List ℕ → List ℕ
unfolding bytes_text
part_text bytes =
    if ltb 1024 (length bytes)
    then length_label ++ decimal 10 (length bytes) ++ b'\n' ∷ []
    else bytes_text bytes ++ b'\n' ∷ []

unfoldable pub parts_text : List (List ℕ) → List ℕ
unfolding part_text
parts_text [] = []
parts_text (bytes ∷ parts) = part_text bytes ++ parts_text parts

abbrev pub send_one_pkt : List ℕ
send_one_pkt =
    b's' ∷ b'e' ∷ b'n' ∷ b'd' ∷ b' ' ∷ b'o' ∷ b'n' ∷ b'e' ∷ b' ' ∷ b'p' ∷ b'k' ∷ b't' ∷ b'\n' ∷ []

abbrev pub send_over : List ℕ
send_over = b's' ∷ b'e' ∷ b'n' ∷ b'd' ∷ b' ' ∷ b'o' ∷ b'v' ∷ b'e' ∷ b'r' ∷ b'\n' ∷ []

-- `drv_mqtt_sendPacket` up to its sendmsg, whose result it returns.
unfoldable pub send_packet_text : List (List ℕ) → List ℕ
unfolding parts_text
send_packet_text parts = send_one_pkt ++ parts_text parts ++ send_over

-- How a reader takes the text back: two digits and a space for each byte, up to the line's end.
abbrev pub hex_value : ℕ → ℕ
hex_value c = if ltb c b'A' then c - b'0' else c - b'A' + 10

unfoldable pub read_line : List ℕ → List ℕ × List ℕ
read_line (a ∷ b ∷ c ∷ text) =
    let (bytes, rest) = read_line text in
    if a == b'\n' then ([], b ∷ c ∷ text) else ((hex_value a * 16 + hex_value b) ∷ bytes, rest)
read_line (a ∷ text) = ([], text)
read_line [] = ([], [])

hex_value-hex_digit : (d : ℕ) → d < 16 → hex_value (hex_digit d) ≡ d
hex_value-hex_digit d h = ground (arith, h)

hex_digit_is_no_end : (d : ℕ) → (hex_digit d == b'\n') ≡ false
hex_digit_is_no_end d = ground arith

line_end : (text : List ℕ) → read_line (b'\n' ∷ text) ≡ ([], text)
unfolding read_line
line_end [] = refl
line_end (a ∷ []) = refl
line_end (a ∷ b ∷ text) = refl

read_line-bytes_text :
    (bytes text : List ℕ)
    → All (λ b. b < 256) bytes
    → read_line (bytes_text bytes ++ b'\n' ∷ text) ≡ (bytes, text)
unfolding read_line bytes_text
read_line-bytes_text [] text h = line_end text
read_line-bytes_text (b ∷ bytes) text (h, hs) = rw (hex_digit_is_no_end (b / 16)) (
    rw (read_line-bytes_text bytes text hs) (
      rw (hex_value-hex_digit (b / 16) (omega (arith, h))) (
        rw (hex_value-hex_digit (b % 16) (omega arith))
          (ap (λ x. (x ∷ bytes, text)) (omega arith)))))

-- The lines of as many parts.
unfoldable pub read_lines : ℕ → List ℕ → List (List ℕ)
unfolding read_line
read_lines zero text = []
read_lines (suc n) text = let (bytes, rest) = read_line text in bytes ∷ read_lines n rest

-- The parts are bytes, and short enough to be printed.
abbrev pub IsShort : List ℕ → Type 0
IsShort bytes = All (λ b. b < 256) bytes × (length bytes ≤ 1024)

read_line-part_text :
    (bytes text : List ℕ) → IsShort bytes → read_line (part_text bytes ++ text) ≡ (bytes, text)
unfolding part_text
read_line-part_text bytes text (h, short) = elim (Bool-cases (ltb 1024 (length bytes))) [
  | inl long ↦ absurd (ground (arith, long, short))
  | inr fits ↦ rw fits (
      ap read_line (append_assoc (bytes_text bytes) (b'\n' ∷ []) text)
      ∙ read_line-bytes_text bytes text h)
]

read_lines-parts_text :
    (parts : List (List ℕ)) (text : List ℕ)
    → All IsShort parts
    → read_lines (length parts) (parts_text parts ++ text) ≡ parts
unfolding read_lines parts_text
read_lines-parts_text [] text h = refl
read_lines-parts_text (bytes ∷ parts) text (h, hs) =
    rw (append_assoc (part_text bytes) (parts_text parts) text) (
      rw (read_line-part_text bytes (parts_text parts ++ text) h)
        (ap (◌∷◌ bytes) (read_lines-parts_text parts text hs)))

-- From the text that is printed of a packet in parts of at most 1024 bytes, a reader who knows the
-- number of parts gets back every byte of each part.
pub packet_readable :
    (parts : List (List ℕ))
    → All IsShort parts
    → read_lines (length parts) (drop (length send_one_pkt) (send_packet_text parts)) ≡ parts
unfolding send_packet_text
packet_readable parts h =
    ap (read_lines (length parts)) (
      ap (drop (length send_one_pkt)) (append_assoc send_one_pkt (parts_text parts) send_over)
      ∙ drop-append send_one_pkt (parts_text parts ++ send_over))
    ∙ read_lines-parts_text parts send_over h
