-- ===== src/Connection.antt =====
-- Connection::check_query and Connection::calculateRisk of src/connection.cpp, with checkBlacklist,
-- which MySQLConnection and PgSQLConnection share word for word (src/mysql/mysql_con.cpp,
-- src/pgsql/pgsql_con.cpp).
pub mod Risk
pub mod Verdict
pub mod Log
pub mod Literal
pub mod Server
pub mod Run
pub mod Samples
mod Tests
use greensql_fw.Base.{
  ℕ, ◌+◌, ◌%◌, Bool, true, false, not, ◌&&◌, ◌||◌, if◌then◌else◌, Bytes, [], ◌∷◌, ◌++◌, List,
  Option, none, some, codes,
}
use greensql_fw.Base.Int.{
  ℤ, pos, pos_part, is_positive, is_nonzero, int_leb, int_suc, to_int, u32_mod,
}
use greensql_fw.Misc.{str_lowercase}
use greensql_fw.Normalization.Pattern.{DbProxyType, normalize_query}
use greensql_fw.Permissions.{
  DbPermObj, DbBlockStatus, risk_block, privilege_block, always_block_new, learning_mode,
  learning_mode_3_days, learning_mode_7_days, check_whitelist,
}
use greensql_fw.Patterns.{
  Pcre, SqlPatterns, MatchType, sql_alter, sql_create, sql_drop, sql_info, match_pattern,
}
use greensql_fw.Config.{GreenSqlConfig}

-- query_risk of src/parser/parser.hpp; the fields are 0 or 1.
pub record QueryRisk : Type 0 where
  pub has_bruteforce_function : Bool
  pub has_separator : Bool
  pub has_tautology : Bool
  pub has_empty_pwd : Bool
  pub has_s_table : Bool
  pub has_comment : Bool
  pub has_union : Bool
  pub has_or : Bool

-- DBBlockLevel.
pub data DbBlockLevel : Type 0 where
  warn blocked high_risk low sql_error : DbBlockLevel

-- What logalert and logwhitelist are told of a query.
pub record Entry : Type 0 where
  pub query : Bytes
  pub pattern : Bytes
  pub reason : Bytes
  pub risk : ℤ
  pub level : DbBlockLevel

-- The calls that check_query makes for their effect, in order.
pub data Action : Type 0 where
  log_alert : Entry → Action
  log_whitelist : Entry → Action
  add_to_whitelist : Bytes → Action

pub record Outcome : Type 0 where
  pub allowed : Bool
  pub pattern : Bytes
  pub actions : List Action

-- What check_query looks at. `query_parse` is the scanner and grammar of src/parser, a parameter.
pub record Context : Type 0 where
  pub query_parse : Bytes → QueryRisk
  pub pcre : Pcre
  pub patterns : SqlPatterns
  pub conf : GreenSqlConfig
  pub db : DbPermObj
  pub db_type : DbProxyType

-- One test of calculateRisk, on the risk and the reason so far.
unfoldable pub add_risk : ℤ → Bool → Bytes → ℕ × Bytes → ℕ × Bytes
add_risk weight found text (ret, reason) =
    if is_positive weight && found
    then ((ret + pos_part weight) % u32_mod, reason ++ text)
    else (ret, reason)

unfoldable pub calculate_risk : GreenSqlConfig → QueryRisk → Bytes → ℕ × Bytes
calculate_risk conf risk reason =
    add_risk conf.re_bruteforce risk.has_bruteforce_function
      (codes "Query has SQL fuction that can be used to bruteforce db contents\n")
      (add_risk conf.re_empty_password risk.has_empty_pwd
        (codes "Query has empty password expression\n")
        (add_risk conf.re_var_cmp_var risk.has_tautology
          (codes "True expression detected (SQL tautology)\n")
          (add_risk conf.re_union_token risk.has_union (codes "Query has 'union' token\n") (
            add_risk conf.re_or_token risk.has_or (codes "Query has 'or' token\n") (
              add_risk conf.re_multiple_queries risk.has_separator
                (codes "Multiple queries found\n")
                (add_risk conf.re_s_tables risk.has_s_table (codes "Query uses sensitive tables\n")
                  (add_risk conf.re_sql_comments risk.has_comment (codes "Query has comments\n")
                    (0, reason))))))))

-- One test of checkBlacklist, on the verdict and the reason so far.
pub forbid : Context → Bool → MatchType → Bytes → Bytes → Bool × Bytes → Bool × Bytes
forbid c allowed type query text (bad, reason) =
    if not allowed && match_pattern c.pcre c.patterns type query
    then (true, reason ++ text)
    else (bad, reason)

unfoldable pub check_blacklist : Context → Bytes → Bytes → Bool × Bytes
unfolding forbid
check_blacklist c query reason =
    forbid c c.db.info_perm sql_info query
      (codes "Detected attempt to discover db internal information.\n")
      (forbid c c.db.create_perm sql_create query
        (codes "Detected attempt to create database/table/index.\n")
        (forbid c c.db.drop_perm sql_drop query
          (codes "Detected attempt to drop database/table/index.\n")
          (forbid c c.db.alter_perm sql_alter query
            (codes "Detected attempt to change database/table structure.\n") (false, reason))))

pub is_learning : DbBlockStatus → Bool
is_learning learning_mode = true
is_learning learning_mode_3_days = true
is_learning learning_mode_7_days = true
is_learning _ = false

pub is_always_block_new : DbBlockStatus → Bool
is_always_block_new always_block_new = true
is_always_block_new _ = false

pub is_privilege_block : DbBlockStatus → Bool
is_privilege_block privilege_block = true
is_privilege_block _ = false

pub is_risk_block : DbBlockStatus → Bool
is_risk_block risk_block = true
is_risk_block _ = false

abbrev pub entry : Bytes → Bytes → Bytes → ℤ → DbBlockLevel → Entry
entry query pattern reason risk level = record {
  query = query;
  pattern = pattern;
  reason = reason;
  risk = risk;
  level = level;
}

abbrev pub outcome : Bool → Bytes → List Action → Outcome
outcome allowed pattern actions = record { allowed = allowed; pattern = pattern; actions = actions }

-- The branch of a privileged operation.
pub check_privileged : GreenSqlConfig → DbBlockStatus → Bytes → Bytes → Bytes → Outcome
check_privileged conf status query pattern reason =
    let at = entry query pattern reason (int_suc conf.re_block_level) in
    if is_privilege_block status || is_risk_block status
    then outcome false pattern (log_alert (at blocked) ∷ [])
    else if is_learning status
    then outcome true pattern (add_to_whitelist pattern ∷ log_whitelist (at high_risk) ∷ [])
    else outcome true pattern (log_alert (at high_risk) ∷ [])

-- The branch of the learning modes.
pub check_learning : GreenSqlConfig → Bytes → Bytes → Bytes → ℤ → Outcome
check_learning conf query pattern reason risk =
    let at = entry query pattern reason risk in
    let level =
      if int_leb conf.re_block_level risk
      then high_risk
      else if int_leb conf.re_warn_level risk
      then warn
      else low in
    outcome true pattern (add_to_whitelist pattern ∷ log_whitelist (at level) ∷ [])

-- The rest: the risk against the levels of the configuration.
pub check_levels : GreenSqlConfig → DbBlockStatus → Bytes → Bytes → Bytes → ℤ → Outcome
check_levels conf status query pattern reason risk =
    let at = entry query pattern reason risk in
    let blocks = is_risk_block status in
    if int_leb conf.re_block_level risk
    then outcome (not blocks) pattern (log_alert (at (if blocks then blocked else high_risk)) ∷ [])
    else if int_leb conf.re_warn_level risk
    then outcome true pattern (log_alert (at warn) ∷ [])
    else outcome true pattern []

-- check_query from the look at the whitelist on, with what checkBlacklist and calculateRisk found.
pub decide : GreenSqlConfig → DbBlockStatus → Bool → Bool → Bytes → Bytes → Bytes → ℤ → Outcome
unfolding check_privileged check_learning check_levels is_learning is_always_block_new
    is_privilege_block is_risk_block
decide conf status in_whitelist privileged query pattern reason risk =
    if in_whitelist
    then outcome true pattern []
    else if is_always_block_new status
    then outcome false pattern (
        log_alert (
          entry query pattern (reason ++ codes "Query blocked because it is not in whitelist.\n")
            risk blocked)
        ∷ [])
    else if privileged
    then check_privileged conf status query pattern reason
    else if is_learning status
    then check_learning conf query pattern reason risk
    else check_levels conf status query pattern reason risk

abbrev pub is_whitelisted : Context → Bytes → Bool
is_whitelisted c pattern = is_nonzero (check_whitelist c.db pattern)

abbrev pub assess : Context → Bytes → Bytes → ℕ × Bytes
assess c query pattern =
    calculate_risk c.conf (c.query_parse query) (check_blacklist c pattern []).1

-- check_query behind the normalization. The reasons of checkBlacklist stand before the others.
pub check_pattern : Context → Bytes → Bytes → Outcome
check_pattern c query pattern =
    decide c.conf c.db.block_status (is_whitelisted c pattern) (check_blacklist c pattern []).0
      query pattern (assess c query pattern).1 (to_int (assess c query pattern).0)

-- `none` stands for undefined behaviour of the normalization.
unfoldable pub check_query : Context → Bytes → Option Outcome
unfolding check_pattern
check_query c query = elim (normalize_query c.db_type (str_lowercase query)) [
  | none ↦ none
  | some pattern ↦ some (check_pattern c query pattern)
]
