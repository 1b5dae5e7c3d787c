-- ===== src/Misc.antt =====
-- src/misc.cpp. `none` stands for the exception std::out_of_range.
pub mod Decimal
use greensql_fw.Base.Int.{ℤ, pos, negsuc}
use greensql_fw.Base.{
  ℕ, zero, suc, ◌+◌, ◌-◌, ◌/◌, ◌%◌, Bool, true, false, not, ◌&&◌, ◌||◌, ltb, leb, ◌==◌,
  if◌then◌else◌, Bytes, [], ◌∷◌, ◌++◌, List, map, Option, none, some, length, char_at, take, drop,
  substr,
}

digits_loop : ℕ → ℕ → Bytes
digits_loop zero n = []
digits_loop (suc fuel) n =
    let more = digits_loop fuel (n / 10) ++ ((48 + n % 10) ∷ []) in
    if ltb n 10 then (48 + n) ∷ [] else more

-- The decimal digits that `o << i` writes of a number that is not negative.
unfoldable pub digits_text : ℕ → Bytes
unfolding digits_loop
digits_text n = digits_loop (suc n) n

-- itoa. Writing an int to a stream of text does not fail, so that "ERROR" is not reached.
abbrev pub itoa : ℤ → Bytes
itoa (pos n) = digits_text n
itoa (negsuc n) = b'-' ∷ digits_text (suc n)

abbrev is_upper : ℕ → Bool
is_upper c = leb b'A' c && leb c b'Z'

abbrev pub is_lower : ℕ → Bool
is_lower c = leb b'a' c && leb c b'z'

-- `tolower` in the C locale.
unfoldable pub to_lower : ℕ → ℕ
to_lower c = if is_upper c then c + 32 else c

unfoldable pub str_lowercase : Bytes → Bytes
unfolding to_lower
str_lowercase = map to_lower

-- `str.find(c)`: the index, or none for npos.
unfoldable pub find_byte : ℕ → Bytes → Option ℕ
find_byte c [] = none
find_byte c (x ∷ s) =
    if x == c then some 0 else elim (find_byte c s) [ none ↦ none | some i ↦ some (suc i) ]

-- How many bytes at the head of a text satisfy `p`.
unfoldable pub prefix_length : (ℕ → Bool) → Bytes → ℕ
prefix_length p [] = 0
prefix_length p (c ∷ s) = if p c then suc (prefix_length p s) else 0

-- `find_last_not_of`: the index of the last byte that does not satisfy `p`, or none.
unfoldable pub find_last_not : (ℕ → Bool) → Bytes → Option ℕ
find_last_not p [] = none
find_last_not p (c ∷ s) = elim (find_last_not p s) [
  | some i ↦ some (suc i)
  | none ↦ if p c then none else some 0
]

abbrev pub is_blank : ℕ → Bool
is_blank c = c == b' ' || c == b'\t' || c == b'\r' || c == b'\n'

abbrev is_blank_or_hash : ℕ → Bool
is_blank_or_hash c = is_blank c || c == b'#'

-- `str.substr(0, com-1)`: at 0 the subtraction wraps round to npos, and all is kept.
abbrev cut_comment : Bytes → Bytes
cut_comment s = elim (find_byte b'#' s) [
  | none ↦ s
  | some at ↦ if at == 0 then s else take (at - 1) s
]

unfoldable pub trim_str : Bytes → Bytes
unfolding find_byte prefix_length find_last_not substr
trim_str s =
    let str = cut_comment s in
    let start = prefix_length is_blank str in
    elim (find_last_not is_blank_or_hash str) [
      | none ↦ []
      | some end ↦ if start == length str then [] else substr str start (end + 1)
    ]

abbrev pub is_key_byte : ℕ → Bool
is_key_byte c = is_lower c || is_upper c || c == b'_'

abbrev pub is_value_byte : ℕ → Bool
is_value_byte c =
    is_lower c
    || is_upper c
    || (leb b'0' c && leb c b'9')
    || c == b'_'
    || c == b':'
    || c == b'/'
    || c == b'\\'
    || c == b'.'
    || c == b'-'

abbrev is_gap : ℕ → Bool
is_gap c = c == b' ' || c == b'\t'

-- ParseConfLine: the key and the value of a line `key = value`, or none where it returns false.
unfoldable pub parse_conf_line : Bytes → Option (Bytes × Bytes)
unfolding prefix_length
parse_conf_line str =
    let k = take (prefix_length is_key_byte str) str in
    let behind_key = drop (prefix_length is_key_byte str) str in
    let at_equals = drop (prefix_length is_gap behind_key) behind_key in
    let behind_equals = drop 1 at_equals in
    let at_value = drop (prefix_length is_gap behind_equals) behind_equals in
    let v = take (prefix_length is_value_byte at_value) at_value in
    if not (char_at at_equals 0 == b'=')
    then none
    else if ltb 0 (length v) && ltb 0 (length k)
    then some (k, v)
    else none
