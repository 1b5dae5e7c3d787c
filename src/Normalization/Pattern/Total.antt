-- ===== src/Normalization/Pattern/Total.antt =====
-- normalizeQuery of src/normalization.cpp as a whole.
use greensql_fw.Base.{false, Bytes, [], ◌∷◌, ◌++◌, ◌≡◌, ◌≢◌, refl, some, ℕ}
use greensql_fw.Normalization.Quotes.{remove_quoted_text}
use greensql_fw.Normalization.Quotes.Machine.{outside, IsQuote}
use greensql_fw.Normalization.Quotes.Literals.{
  remove_quoted_text-ne-nil, remove_quoted_text_literal, LiteralText, after,
}
use greensql_fw.Normalization.Comments.Nonempty.{remove_comments_total}
use greensql_fw.Normalization.Numbers.Nonempty.{remove_numbers-ne-nil}
use greensql_fw.Normalization.Numbers.{remove_numbers}
use greensql_fw.Normalization.Spaces.{remove_spaces}
use greensql_fw.Normalization.Negative.{fix_negative_numbers}
use greensql_fw.Normalization.Pattern.{DbProxyType, normalize_query}

remove_spaces_total : (query : Bytes) → query ≢ [] → (t : Bytes) × (remove_spaces query ≡ some t)
unfolding remove_spaces
remove_spaces_total [] h = absurd (h refl)
remove_spaces_total (c ∷ r) h = (_, refl)

-- Every query that is not empty has a pattern: no pass meets the empty text, on which the bounds of
-- the loops wrap round.
pub normalize_query_total :
    (db_type : DbProxyType) (query : Bytes)
    → query ≢ []
    → (pattern : Bytes) × (normalize_query db_type query ≡ some pattern)
unfolding normalize_query
normalize_query_total db_type query h =
    let (a, p, k) =
      remove_comments_total (remove_quoted_text query) (remove_quoted_text-ne-nil query h) in
    let (b, q) = remove_spaces_total (remove_numbers a) (remove_numbers-ne-nil a k) in
    (fix_negative_numbers b, rw (p, q))

-- Queries that differ only in what a quoted literal holds have the same pattern.
pub normalize_query_literal :
    (db_type : DbProxyType) (pre post : Bytes) (d : ℕ) (lit lit' : Bytes)
    → IsQuote d
    → after (outside false) pre ≡ outside false
    → LiteralText d lit
    → LiteralText d lit'
    → normalize_query db_type (pre ++ (d ∷ (lit ++ (d ∷ post))))
      ≡ normalize_query db_type (pre ++ (d ∷ (lit' ++ (d ∷ post))))
unfolding normalize_query
normalize_query_literal db_type pre post d lit lit' k m t t' =
    rw (remove_quoted_text_literal pre post d lit lit' k m t t')
