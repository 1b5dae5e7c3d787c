-- ===== src/Log.antt =====
-- The hexadecimal dump of src/log.cpp, but for the time in front of a line. Log/File.antt has the log
-- file.
pub mod Bounds
pub mod File
mod Tests
use greensql_fw.Base.{
  ◌>>=◌, ℕ, zero, suc, ◌+◌, ◌*◌, ◌/◌, ◌%◌, Bool, true, false, not, ◌&&◌, ltb, leb, ◌==◌,
  if◌then◌else◌, Bytes, [], ◌∷◌, List, Option, none, some, length, set, take, drop,
}
use greensql_fw.Normalization.Loops.{skip_while}

-- `isalnum(b) || b == ' ' || ispunct(b)`, in the C locale.
pub is_printable : ℕ → Bool
is_printable b = leb 32 b && leb b 126

-- `b += (b > 9) ? 'A'-10 : '0'`.
pub hex_digit : ℕ → ℕ
hex_digit b = if ltb 9 b then b + 55 else b + 48

-- `temp[i] = c`; behind the end of `temp` it is undefined behaviour.
pub store : Bytes → ℕ → ℕ → Option Bytes
store temp i c = if ltb i (length temp) then some (set temp i c) else none

-- The two loops of printline, from the byte `j` on.
pub text_loop : Bytes → Bytes → ℕ → Option Bytes
text_loop [] temp j = some temp
text_loop (b ∷ bytes) temp j = do
  next ← store temp j (if is_printable b then b else b'.')
  text_loop bytes next (j + 1)

pub hex_loop : Bytes → Bytes → ℕ → Option Bytes
hex_loop [] temp j = some temp
hex_loop (b ∷ bytes) temp j = do
  high ← store temp (20 + j * 3) (hex_digit (b / 16))
  low ← store high (20 + j * 3 + 1) (hex_digit (b * 16 % 256 / 16))
  hex_loop bytes low (j + 1)

abbrev pub blanks : ℕ → Bytes
blanks zero = []
blanks (suc n) = b' ' ∷ blanks n

-- What printline writes: `temp` up to its first zero.
pub printline : Bytes → Option Bytes
printline bytes = do
  texted ← text_loop bytes (set (blanks 256) 255 0) 0
  barred ← store texted 18 b'|'
  hexed ← hex_loop bytes barred 0
  ended ← store hexed (20 + length bytes * 3) b'\n'
  closed ← store ended (20 + length bytes * 3 + 1) 0
  some (take (skip_while (λ c. not (c == 0)) closed 0) closed)

-- The lines of 16 bytes, and one for the `ord` bytes behind them.
pub hex_lines : ℕ → ℕ → Bytes → Option (List Bytes)
hex_lines zero ord bytes =
    if ltb 0 ord then printline (take ord bytes) >>= (λ line. some (line ∷ [])) else some []
hex_lines (suc lines) ord bytes = do
  line ← printline (take 16 bytes)
  rest ← hex_lines lines ord (drop 16 bytes)
  some (line ∷ rest)

-- loghex: the lines that it writes. `type` and `log_level` are the places in ErrorType.
pub loghex : (log_level type : ℕ) → Bytes → Option (List Bytes)
loghex log_level type bytes =
    let size = length bytes in
    let written = hex_lines (size / 16) (size * 16 % 256 / 16) bytes in
    if size == 0 then some [] else if ltb log_level type then some [] else written
