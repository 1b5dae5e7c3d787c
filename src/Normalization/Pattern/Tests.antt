-- ===== src/Normalization/Pattern/Tests.antt =====
-- The patterns of some queries.
use greensql_fw.Base.{Bytes, [], codes, Option, none, some, ◌≡◌, refl}
use greensql_fw.Normalization.Quotes.{remove_quoted_text}
use greensql_fw.Normalization.Comments.{remove_comments}
use greensql_fw.Normalization.Numbers.{remove_numbers}
use greensql_fw.Normalization.Spaces.{remove_spaces}
use greensql_fw.Normalization.Negative.{fix_negative_numbers}
use greensql_fw.Normalization.Pattern.{db_type_my_sql, normalize_query}

pattern_of : Bytes → Option Bytes
unfolding normalize_query remove_quoted_text remove_comments remove_numbers remove_spaces
    fix_negative_numbers
pattern_of = normalize_query db_type_my_sql

test_select :
    pattern_of (codes "select * from  t where id = 10 and name='it''s' , x")
    ≡ some (codes "select * from t where id = ? and name=?,x")
unfolding pattern_of
test_select = refl

test_comment : pattern_of (codes "select /* a b */ 1 -- x\n") ≡ some (codes "select /* */ ? --")
unfolding pattern_of
test_comment = refl

-- A slash inside of a comment ends the search for the end of the comment.
test_comment_slash :
    pattern_of (codes "select /* a/b or x */ y") ≡ some (codes "select /*or x */ y")
unfolding pattern_of
test_comment_slash = refl

test_negative :
    pattern_of (codes "insert into t values(-1, - 2)") ≡ some (codes "insert into t values(?,?)")
unfolding pattern_of
test_negative = refl

test_empty : pattern_of [] ≡ none
unfolding pattern_of
test_empty = refl
