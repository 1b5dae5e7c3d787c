-- ===== src/Normalization/Negative.antt =====
-- fixNegativeNumbers of src/normalization.cpp: the sign in front of a number is dropped where it
-- cannot be a subtraction.
use greensql_fw.Base.{
  ℕ, zero, suc, ◌+◌, ◌-◌, Bool, not, ◌&&◌, ◌||◌, ltb, ◌==◌, if◌then◌else◌, Bytes, codes, char_at,
  length, equal, substr, erase,
}
use greensql_fw.Normalization.Chars.{sql_space}
use greensql_fw.Normalization.Loops.{skip_while}

abbrev is_separator : ℕ → Bool
is_separator c = c == b' ' || c == b',' || c == b'('

-- The tokens behind which a minus is a sign.
pub before_sign : Bytes → Bool
before_sign last_token =
    equal last_token (codes "select ")
    || equal last_token (codes "where ")
    || equal last_token (codes "and ")
    || equal last_token (codes "or ")
    || equal last_token (codes "not ")
    || char_at last_token (length last_token - 1) == b'('
    || char_at last_token (length last_token - 1) == b','

-- `next > query.size() - k`, where the subtraction wraps round on a text shorter than `k`.
abbrev beyond : Bytes → ℕ → ℕ → Bool
beyond query next k = not (ltb (length query) k) && ltb (length query - k) next

pub fix_close : Bytes → Bytes → ℕ → Bytes
fix_close query last_token next =
    if char_at query (next + 1) == b'-'
      && char_at query (next + 2) == b'?'
      && before_sign last_token
    then erase query (next + 1) 1
    else query

pub fix_apart : Bytes → Bytes → ℕ → Bytes
fix_apart query last_token next =
    if char_at query (next + 1) == b'-'
      && sql_space (char_at query (next + 2))
      && char_at query (next + 3) == b'?'
      && before_sign last_token
    then erase query (next + 1) 2
    else query

pub negative_loop : ℕ → Bytes → ℕ → Bytes
negative_loop zero query prev = query
negative_loop (suc fuel) query prev =
    let next = skip_while (λ c. not (is_separator c)) query prev in
    let last_token = substr query prev (next + 1 - prev) in
    let closed = fix_close query last_token next in
    let rest = negative_loop fuel (fix_apart closed last_token next) (next + 1) in
    if not (ltb next (length query))
    then query
    else if ltb (length query) (next + 1)
    then query
    else if beyond query next 2
    then query
    else if beyond closed next 3
    then closed
    else rest

unfoldable pub fix_negative_numbers : Bytes → Bytes
unfolding negative_loop fix_close fix_apart before_sign skip_while substr erase equal
fix_negative_numbers query = negative_loop (length query) query 0
