-- ===== src/Normalization/Spaces.antt =====
-- removeSpaces of src/normalization.cpp. `none` stands for undefined behaviour: on the empty text
-- `query.size()-1` wraps round.
pub mod Collapse
pub mod Blanks
use greensql_fw.Base.{
  ℕ, zero, suc, ◌+◌, ◌-◌, not, ◌&&◌, ◌||◌, ltb, leb, ◌==◌, if◌then◌else◌, Bytes, [], ◌∷◌, Option,
  none, some, char_at, length, set, erase,
}
use greensql_fw.Normalization.Chars.{sql_space}
use greensql_fw.Normalization.Loops.{skip_while}

-- The first loop: a run of spaces becomes one blank.
pub collapse : Bytes → ℕ → Bytes
collapse query i =
    let j = skip_while sql_space query (i + 1) in
    let blank = set query i b' ' in
    if not (j == i + 1) then erase blank (i + 1) (j - i - 1) else blank

pub space_loop : ℕ → Bytes → ℕ → Bytes
space_loop zero query i = query
space_loop (suc fuel) query i =
    let cut = space_loop fuel (collapse query i) (i + 1) in
    let keep = space_loop fuel query (i + 1) in
    if ltb i (length query) then (if sql_space (char_at query i) then cut else keep) else query

-- The body of the second loop: a blank before `)` or `,`, and one behind `(` or `,`.
pub tighten_before : Bytes → ℕ → Bytes
tighten_before query i =
    if char_at query i == b' ' && (char_at query (i + 1) == b')' || char_at query (i + 1) == b',')
    then erase query i 1
    else query

pub tighten_behind : Bytes → ℕ → Bytes
tighten_behind query i =
    if leb (i + 1) (length query)
      && char_at query (i + 1) == b' '
      && (char_at query i == b'(' || char_at query i == b',')
    then erase query (i + 1) 1
    else query

pub tighten_loop : ℕ → Bytes → ℕ → Bytes
tighten_loop zero query i = query
tighten_loop (suc fuel) query i =
    let rest = tighten_loop fuel (tighten_behind (tighten_before query i) i) (i + 1) in
    if leb i (length query - 1) then rest else query

-- The last blank.
pub drop_last_space : Bytes → Bytes
drop_last_space query =
    let j = length query - 1 in if char_at query j == b' ' then erase query j 1 else query

unfoldable pub remove_spaces : Bytes → Option Bytes
unfolding space_loop collapse tighten_loop tighten_before tighten_behind drop_last_space skip_while
    erase sql_space
remove_spaces [] = none
remove_spaces (c ∷ r) =
    let query = space_loop (length (c ∷ r)) (c ∷ r) 0 in
    some (drop_last_space (tighten_loop (length query) query 0))
