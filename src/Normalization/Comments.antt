-- ===== src/Normalization/Comments.antt =====
-- removeCppComment, removeHashComment, removeDashComment and removeComments of
-- src/normalization.cpp. `none` stands for undefined behaviour: on the empty text the bound
-- `query.size()-1` wraps round, and the loop runs through memory that is not the text's.
pub mod Hash
pub mod Nonempty
use greensql_fw.Base.{
  ℕ, zero, suc, ◌+◌, ◌-◌, ◌≤◌, Bool, true, false, not, ◌&&◌, ◌||◌, ltb, ◌==◌, if◌then◌else◌, Bytes,
  [], ◌∷◌, Option, none, some, char_at, length, set, erase,
}
use greensql_fw.Normalization.Loops.{skip_while}

abbrev pub is_newline : ℕ → Bool
is_newline c = c == b'\r' || c == b'\n'

-- removeHashComment: the rest of the line behind a `#`, with the line breaks that follow it.
pub hash_end : Bytes → ℕ → ℕ
hash_end query j = skip_while is_newline query (skip_while (λ c. not (is_newline c)) query j)

pub hash_loop : ℕ → Bytes → ℕ → Bytes
hash_loop zero query i = query
hash_loop (suc fuel) query i =
    let j = hash_end query (i + 1) in
    let cut = hash_loop fuel (erase query (i + 1) (j - i - 1)) (i + 1) in
    let keep = hash_loop fuel query (i + 1) in
    if ltb i (length query) then (if char_at query i == b'#' then cut else keep) else query

unfoldable pub remove_hash_comment : Bytes → Bytes
unfolding hash_loop hash_end skip_while erase
remove_hash_comment query = hash_loop (length query) query 0

-- removeDashComment: the same behind two dashes. The test `j != i+1` of the source always holds.
pub dash_loop : ℕ → Bytes → ℕ → Bytes
dash_loop zero query i = query
dash_loop (suc fuel) query i =
    let j = hash_end query (i + 2) in
    let cut =
      dash_loop fuel (if not (j == i + 1) then erase query (i + 2) (j - i - 2) else query)
        (i + 1) in
    let keep = dash_loop fuel query (i + 1) in
    if ltb i (length query - 1)
    then (if char_at query i == b'-' && char_at query (i + 1) == b'-' then cut else keep)
    else query

unfoldable pub remove_dash_comment : Bytes → Option Bytes
unfolding dash_loop hash_end skip_while erase
remove_dash_comment [] = none
remove_dash_comment (c ∷ r) = let query = c ∷ r in some (dash_loop (length query) query 0)

-- The inner loop of removeCppComment stops at the first `*`, or in front of the first `/`.
pub cpp_end_loop : ℕ → Bytes → ℕ → ℕ
cpp_end_loop zero query j = j
cpp_end_loop (suc fuel) query j =
    let next = cpp_end_loop fuel query (j + 1) in
    if ltb j (length query - 1)
      && not (char_at query j == b'*')
      && not (char_at query (j + 1) == b'/')
    then next
    else j

pub cpp_end : Bytes → ℕ → ℕ
unfolding cpp_end_loop
cpp_end query j = cpp_end_loop (length query) query j

-- What is done at a `/*` at `i`, with `j` where the inner loop stopped.
pub cpp_cut : Bytes → ℕ → ℕ → Bytes
cpp_cut query i j =
    if char_at query j == b'*' && char_at query (j + 1) == b'/'
    then (if not (j == i + 2) then erase (set query (i + 2) b' ') (i + 3) (j - i - 3) else query)
    else erase query (i + 2) (j - i + 2)

pub cpp_loop : ℕ → Bytes → ℕ → Bytes
cpp_loop zero query i = query
cpp_loop (suc fuel) query i =
    let cut = cpp_loop fuel (cpp_cut query i (cpp_end query (i + 2))) (i + 1) in
    let keep = cpp_loop fuel query (i + 1) in
    if ltb i (length query - 1)
    then (if char_at query i == b'/' && char_at query (i + 1) == b'*' then cut else keep)
    else query

unfoldable pub remove_cpp_comment : Bytes → Option Bytes
unfolding cpp_loop cpp_cut cpp_end erase
remove_cpp_comment [] = none
remove_cpp_comment (c ∷ r) = let query = c ∷ r in some (cpp_loop (length query) query 0)

infixl 5 ◌>>=◌
abbrev ◌>>=◌ : {A B : Type 0} → Option A → (A → Option B) → Option B
none >>= f = none
some a >>= f = f a

unfoldable pub remove_comments : Bytes → Option Bytes
unfolding remove_cpp_comment remove_hash_comment remove_dash_comment
remove_comments query = do
  without_cpp ← remove_cpp_comment query
  remove_dash_comment (remove_hash_comment without_cpp)
