-- ===== src/Normalization/Chars.antt =====
-- The classes of characters that src/normalization.cpp tests for.
use greensql_fw.Base.{ℕ, Bool, ◌&&◌, ◌||◌, ltb, leb, ◌==◌}

-- `sql_space` on a `char`, which is taken as signed, as on x86: a byte from
-- 128 on is a negative number there, so it never equals 0xA0.
unfoldable pub sql_space : ℕ → Bool
sql_space a = ltb a 128 && (a == 0x20 || a == 0xA0 || (ltb 0x08 a && ltb a 0x0E))

unfoldable pub is_digit : ℕ → Bool
is_digit c = leb b'0' c && leb c b'9'

-- The digits of the loop behind `0x`: no upper case, since the query is in lower case.
unfoldable pub is_hex : ℕ → Bool
unfolding is_digit
is_hex c = is_digit c || (leb b'a' c && leb c b'f')

-- The bytes that may stand in front of a number.
unfoldable pub precedes_number : ℕ → Bool
unfolding sql_space
precedes_number c =
    c == b','
    || c == b'!'
    || c == b'('
    || sql_space c
    || c == b'+'
    || c == b'-'
    || c == b'*'
    || c == b'/'
    || c == b'='
    || c == b'~'
    || c == b'<'
    || c == b'>'
    || c == b'^'
    || c == b'%'
    || c == b'|'
    || c == b'&'
