-- ===== src/Normalization/Tests.antt =====
-- The passes of src/normalization.cpp at small texts.
use greensql_fw.Normalization.Chars.{sql_space}
use greensql_fw.Normalization.Spaces.{remove_spaces}
use greensql_fw.Normalization.Spaces.Blanks.{remove_spaces_blanks}
use greensql_fw.Normalization.Spaces.Collapse.{squeeze, single_blanks}
use greensql_fw.Base.{true, false, Bytes, [], some, codes, ◌≡◌, ◌≢◌, refl}
use greensql_fw.Normalization.Quotes.{remove_quoted_text}
use greensql_fw.Normalization.Quotes.Machine.{outside, remove_quoted_text-scan}
use greensql_fw.Normalization.Quotes.Machine
use greensql_fw.Normalization.Quotes.Literals.{unquoted, remove_quoted_text_idem}
use greensql_fw.Normalization.Comments.{remove_hash_comment}
use greensql_fw.Normalization.Comments.Hash.{remove_hash_comment-scan}
use greensql_fw.Normalization.Comments.Hash
use greensql_fw.Normalization.Pattern.{db_type_my_sql, normalize_query}
use greensql_fw.Normalization.Pattern.Total.{normalize_query_total}

abbrev query : Bytes
query = codes "select 'it''s' # rest\n"

remove_quoted_text-scan_example : remove_quoted_text query ≡ codes "select ? # rest\n"
unfolding Machine.scan
remove_quoted_text-scan_example = remove_quoted_text-scan query

query-ne-nil : query ≢ []
query-ne-nil e = cc

normalize_query_total_example :
    (pattern : Bytes) × (normalize_query db_type_my_sql query ≡ some pattern)
normalize_query_total_example = normalize_query_total db_type_my_sql query query-ne-nil

remove_quoted_text_idem_example :
    (unquoted false (remove_quoted_text query) ≡ true)
    × (remove_quoted_text (remove_quoted_text query) ≡ remove_quoted_text query)
remove_quoted_text_idem_example = remove_quoted_text_idem query

test_squeeze : squeeze false (codes "select  \t  1") ≡ codes "select 1"
unfolding squeeze sql_space
test_squeeze = refl

abbrev call : Bytes
call = codes "f ( a  , b )"

call-ne-nil : call ≢ []
call-ne-nil e = cc

remove_spaces_blanks_example :
    (result : Bytes) × (remove_spaces call ≡ some result) × (single_blanks false result ≡ true)
remove_spaces_blanks_example = remove_spaces_blanks call call-ne-nil

test_remove_spaces : remove_spaces call ≡ some (codes "f (a,b)")
unfolding remove_spaces
test_remove_spaces = refl

remove_hash_comment-scan_example : remove_hash_comment (codes "a # rest\nb") ≡ codes "a #b"
unfolding Hash.scan
remove_hash_comment-scan_example = remove_hash_comment-scan (codes "a # rest\nb")
