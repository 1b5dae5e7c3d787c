-- ===== src/Normalization/Quotes.antt =====
-- lookForChar and removeQuotedText of src/normalization.cpp: quoted literals become `?` in place.
-- A loop over an index is a recursion on fuel; the length of the text is fuel enough, since each
-- round moves the index forward and no round makes the text longer.
pub mod Machine
pub mod Literals
use greensql_fw.Base.{
  ℕ, zero, suc, ◌+◌, ◌-◌, Bool, true, false, not, ◌&&◌, ◌||◌, ltb, ◌==◌, if◌then◌else◌, Bytes,
  char_at, length, set, erase,
}

-- The loop of lookForChar: the index of the closing delimiter, or the length of the text.
pub look_loop : ℕ → Bytes → ℕ → Bool → ℕ → ℕ
look_loop zero query delimeter quoted j = j
look_loop (suc fuel) query delimeter quoted j =
    let c = char_at query j in
    let next_quoted = c == b'\\' && not quoted in
    let doubled = look_loop fuel query delimeter false (j + 2) in
    let onwards = look_loop fuel query delimeter next_quoted (j + 1) in
    if ltb j (length query)
    then (if c == delimeter && not quoted
        then (if ltb (j + 1) (length query)
            then (if char_at query (j + 1) == delimeter && (delimeter == b'\'' || delimeter == b'"')
                then doubled
                else j)
            else j)
        else onwards)
    else j

pub look_for_char : Bytes → ℕ → ℕ → ℕ
unfolding look_loop
look_for_char query start delimeter = look_loop (length query) query delimeter false (start + 1)

-- `query[i] = '?'; query.erase(i+1, j-i);`
abbrev pub replace_literal : Bytes → ℕ → ℕ → Bytes
replace_literal query i delimeter =
    let j = look_for_char query i delimeter in erase (set query i b'?') (i + 1) (j - i)

-- The loop of removeQuotedText; `quoted` is set behind a backslash.
pub quoted_loop : ℕ → Bytes → Bool → ℕ → Bytes
quoted_loop zero query quoted i = query
quoted_loop (suc fuel) query quoted i =
    let c = char_at query i in
    let single = quoted_loop fuel (replace_literal query i b'\'') quoted (i + 1) in
    let double = quoted_loop fuel (replace_literal query i b'"') quoted (i + 1) in
    let escape = quoted_loop fuel query true (i + 1) in
    let plain = quoted_loop fuel query false (i + 1) in
    if ltb i (length query)
    then (if c == b'\'' && not quoted
        then single
        else if c == b'"' && not quoted
        then double
        else if c == b'\\' && not quoted
        then escape
        else plain)
    else query

unfoldable pub remove_quoted_text : Bytes → Bytes
unfolding quoted_loop look_for_char erase
remove_quoted_text query = quoted_loop (length query) query false 0
