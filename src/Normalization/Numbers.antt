-- ===== src/Normalization/Numbers.antt =====
-- removeNumbers of src/normalization.cpp: numbers become `?` in place.
pub mod Nonempty
use greensql_fw.Base.{
  ℕ, zero, suc, ◌+◌, ◌-◌, Bool, not, ◌&&◌, ◌||◌, ltb, ◌==◌, if◌then◌else◌, Bytes, char_at, length,
  set, erase,
}
use greensql_fw.Normalization.Chars.{is_digit, is_hex, precedes_number}
use greensql_fw.Normalization.Loops.{skip_while}

-- The end of a decimal number whose first digit stands at `i`, with its fraction.
pub decimal_end : Bytes → ℕ → ℕ
decimal_end query i =
    let j = skip_while is_digit query (i + 1) in
    if ltb j (length query) && char_at query j == b'.' then skip_while is_digit query (j + 1) else j

abbrev pub is_hex_prefix : Bytes → ℕ → Bool
is_hex_prefix query i =
    char_at query i == b'0'
    && ltb (i + 1) (length query)
    && (char_at query (i + 1) == b'x' || char_at query (i + 1) == b'X')

-- What is done at a number that begins at `i`.
pub replace_number : Bytes → ℕ → Bytes
unfolding decimal_end
replace_number query i =
    let hex = skip_while is_hex query (i + 2) in
    let decimal = decimal_end query i in
    if is_hex_prefix query i
    then erase (set query i b'?') (i + 1) (hex - i - 1)
    else if not (decimal == i + 1)
    then erase (set query i b'?') (i + 1) (decimal - i - 1)
    else set query i b'?'

pub number_loop : ℕ → Bytes → ℕ → Bytes
number_loop zero query i = query
number_loop (suc fuel) query i =
    let cut = number_loop fuel (replace_number query i) (i + 1) in
    let keep = number_loop fuel query (i + 1) in
    if ltb i (length query)
    then (if precedes_number (char_at query (i - 1)) && is_digit (char_at query i)
        then cut
        else keep)
    else query

unfoldable pub remove_numbers : Bytes → Bytes
unfolding number_loop replace_number skip_while erase precedes_number is_hex
remove_numbers query = number_loop (length query) query 1
