-- ===== src/Usrtypes.antt =====
-- iMX287Learn/cqada/share/usrtypes.h: the receive buffer's type, and the helpers on the two
-- indices of a ring.
pub mod Ring
mod Tests
use linuxapp.Common.{ℕ, ◌+◌, ◌%◌, ◌==◌, u8, Bool, List}

-- CHARS_MAXSIZE
abbrev pub chars_maxsize : ℕ
chars_maxsize = 128

-- `ASCCHARS`, also named `COMMRCV`. `length` is a uint8_t; a char is the byte in memory.
pub record CommRcv : Type 0 where
  pub length : ℕ
  pub chars : List ℕ

unfoldable pub isempty : ℕ → ℕ → Bool
isempty sof eof = sof == eof

-- The sum is an int, so 255 + 1 is 256, which no uint8_t is equal to.
unfoldable pub isfull : ℕ → ℕ → Bool
isfull sof eof = (eof + 1) == sof

-- `*pSof = (*pSof+1) % max`, stored in a uint8_t.
unfoldable pub delete_flush : ℕ → ℕ → ℕ
delete_flush sof max = u8 ((sof + 1) % max)

unfoldable pub add_flush : ℕ → ℕ → ℕ
add_flush eof max = u8 ((eof + 1) % max)
