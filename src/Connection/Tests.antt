-- ===== src/Connection/Tests.antt =====
-- Runs of check_query, and its theorems at a small context.
use greensql_fw.Base.{true, Bytes, [], some, codes, equal, ◌≡◌, ◌≢◌, refl, not, ◌||◌}
use greensql_fw.Base.Int.{int_leb}
use greensql_fw.Misc.{str_lowercase}
use greensql_fw.Normalization.Quotes.{remove_quoted_text}
use greensql_fw.Normalization.Quotes.Literals.{end, byte, after}
use greensql_fw.Normalization.Comments.{remove_comments}
use greensql_fw.Normalization.Numbers.{remove_numbers}
use greensql_fw.Normalization.Spaces.{remove_spaces}
use greensql_fw.Normalization.Negative.{fix_negative_numbers}
use greensql_fw.Normalization.Pattern.{normalize_query}
use greensql_fw.Permissions.{new_perm_obj, check_whitelist}
use greensql_fw.Config.{init}
use greensql_fw.Connection.Verdict.{must_block, check_query-allowed, privileged_of, risk_of}
use greensql_fw.Connection.Log.{reports_block, check_pattern-actions}
use greensql_fw.Connection.Risk.{total, calculate_risk-total}
use greensql_fw.Connection.Literal.{whitelisted_literal}
use greensql_fw.Connection.Samples.{tautology, context}
use greensql_fw.Connection.{
  Outcome, outcome, calculate_risk, check_query, check_pattern, is_whitelisted,
}

test_blocked :
    check_query context (codes "select 1=1")
    ≡ some (check_pattern context (codes "select 1=1") (codes "select ?=?"))
unfolding check_query str_lowercase normalize_query remove_quoted_text remove_comments
    remove_numbers remove_spaces fix_negative_numbers
test_blocked = refl

query-ne-nil : codes "select 1=1" ≢ []
query-ne-nil e = cc

check_query-allowed_example :
    (pattern : Bytes) × (normalize_query context.db_type (str_lowercase (codes "select 1=1"))
      ≡ some pattern)
    × (o : Outcome) × (check_query context (codes "select 1=1") ≡ some o)
    × (o.allowed ≡ (
        is_whitelisted context pattern
        || not (
            must_block context.db.block_status (privileged_of context pattern) (
              int_leb context.conf.re_block_level (risk_of context (codes "select 1=1") pattern)))))
check_query-allowed_example = check_query-allowed context (codes "select 1=1") query-ne-nil

check_pattern-actions_example :
    reports_block (check_pattern context (codes "select 1=1") (codes "select ?=?")).actions
    ≡ not (check_pattern context (codes "select 1=1") (codes "select ?=?")).allowed
check_pattern-actions_example =
    (check_pattern-actions context (codes "select 1=1") (codes "select ?=?")).0

calculate_risk-total_example : (calculate_risk init tautology []).0 ≡ 30
unfolding init total
calculate_risk-total_example = calculate_risk-total init tautology []

whitelisted_literal_example :
    check_query context (codes "select 'b'") ≡ some (outcome true (codes "select ?") [])
unfolding str_lowercase normalize_query remove_quoted_text remove_comments remove_numbers
    remove_spaces fix_negative_numbers check_whitelist equal after new_perm_obj
whitelisted_literal_example =
    whitelisted_literal context (codes "select ") [] b'\'' (codes "a") (codes "b")
      (codes "select ?") refl refl (byte refl refl end) (byte refl refl end) refl refl
