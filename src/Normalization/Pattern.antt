-- ===== src/Normalization/Pattern.antt =====
-- normalizeQuery of src/normalization.cpp: the pattern of a query.
pub mod Total
mod Tests
use greensql_fw.Base.{◌>>=◌, Bytes, Option, none, some}
use greensql_fw.Normalization.Quotes.{remove_quoted_text}
use greensql_fw.Normalization.Comments.{remove_comments}
use greensql_fw.Normalization.Numbers.{remove_numbers}
use greensql_fw.Normalization.Spaces.{remove_spaces}
use greensql_fw.Normalization.Negative.{fix_negative_numbers}

-- DBProxyType of src/config.hpp; normalizeQuery takes it and does not look at it.
pub data DbProxyType : Type 0 where
  db_type_my_sql db_type_pg_sql : DbProxyType

-- `none` stands for undefined behaviour.
unfoldable pub normalize_query : DbProxyType → Bytes → Option Bytes
normalize_query db_type query = do
  without_comments ← remove_comments (remove_quoted_text query)
  spaced ← remove_spaces (remove_numbers without_comments)
  some (fix_negative_numbers spaced)
