-- ===== src/Normalization/Comments/Nonempty.antt =====
-- The passes that shorten comments in src/normalization.cpp never leave the empty text, on which
-- the bound `query.size()-1` of the next pass would wrap round.
use greensql_fw.Base.{
  ℕ, zero, suc, ◌+◌, ◌-◌, ◌<◌, Bytes, [], ◌∷◌, ◌≡◌, ◌≢◌, refl, arith, some, length, erase, set,
  length-erase_pos, length-set, ne-nil-pos,
}
use greensql_fw.Normalization.Comments.{
  cpp_cut, cpp_loop, cpp_end, remove_cpp_comment, hash_end, dash_loop, remove_dash_comment,
  remove_hash_comment, remove_comments,
}
use greensql_fw.Normalization.Comments.Hash.{remove_hash_comment-ne-nil}

cpp_cut-pos : (query : Bytes) (i j : ℕ) → 0 < length query → 0 < length (cpp_cut query i j)
unfolding cpp_cut
cpp_cut-pos query i j h = ground (
  arith,
  length-set query (i + 2) b' ',
  length-erase_pos (set query (i + 2) b' ') (i + 3) (j - i - 3),
  length-erase_pos query (i + 2) (j - i + 2),
)

cpp_loop-pos :
    (fuel : ℕ) (query : Bytes) (i : ℕ) → 0 < length query → 0 < length (cpp_loop fuel query i)
unfolding cpp_loop
cpp_loop-pos zero query i h = h
cpp_loop-pos (suc fuel) query i h = ground (
  arith,
  cpp_cut-pos query i (cpp_end query (i + 2)) h,
  cpp_loop-pos fuel (cpp_cut query i (cpp_end query (i + 2))) (i + 1),
  cpp_loop-pos fuel query (i + 1) h,
)

dash_loop-pos :
    (fuel : ℕ) (query : Bytes) (i : ℕ) → 0 < length query → 0 < length (dash_loop fuel query i)
unfolding dash_loop
dash_loop-pos zero query i h = h
dash_loop-pos (suc fuel) query i h =
    let j = hash_end query (i + 2) in
    ground (
      arith,
      length-erase_pos query (i + 2) (j - i - 2),
      dash_loop-pos fuel (erase query (i + 2) (j - i - 2)) (i + 1),
      dash_loop-pos fuel query (i + 1) h,
    )

remove_cpp_comment_total :
    (query : Bytes) → query ≢ [] → (t : Bytes) × (remove_cpp_comment query ≡ some t) × (t ≢ [])
unfolding remove_cpp_comment
remove_cpp_comment_total [] h = absurd (h refl)
remove_cpp_comment_total (c ∷ r) h =
    (_, refl, ne-nil-pos _ (cpp_loop-pos (length (c ∷ r)) (c ∷ r) 0 (omega arith)))

remove_dash_comment_total :
    (query : Bytes) → query ≢ [] → (t : Bytes) × (remove_dash_comment query ≡ some t) × (t ≢ [])
unfolding remove_dash_comment
remove_dash_comment_total [] h = absurd (h refl)
remove_dash_comment_total (c ∷ r) h =
    (_, refl, ne-nil-pos _ (dash_loop-pos (length (c ∷ r)) (c ∷ r) 0 (omega arith)))

-- All three passes are defined on a text that is not empty, and leave one.
pub remove_comments_total :
    (query : Bytes) → query ≢ [] → (t : Bytes) × (remove_comments query ≡ some t) × (t ≢ [])
unfolding remove_comments
remove_comments_total query h =
    let (a, p, k) = remove_cpp_comment_total query h in
    let (b, q, l) =
      remove_dash_comment_total (remove_hash_comment a) (remove_hash_comment-ne-nil a k) in
    (b, rw p q, l)
