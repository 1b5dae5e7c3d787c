-- ===== src/Connection/Verdict.antt =====
-- When check_query of src/connection.cpp lets a query pass.
use greensql_fw.Base.{Bool, true, false, not, ◌||◌, Bytes, [], ◌∷◌, some, ◌≡◌, ◌≢◌, refl, arith}
use greensql_fw.Base.Int.{ℤ, int_leb, to_int}
use greensql_fw.Misc.{str_lowercase}
use greensql_fw.Normalization.Pattern.{normalize_query}
use greensql_fw.Normalization.Pattern.Total.{normalize_query_total}
use greensql_fw.Permissions.{DbBlockStatus, risk_block, privilege_block, always_block_new}
use greensql_fw.Config.{GreenSqlConfig}
use greensql_fw.Connection.{
  Context, Outcome, check_blacklist, check_pattern, check_query, decide, assess, is_whitelisted,
}

-- The modes of protection, as the enumeration of src/dbpermobj.hpp explains them: what each blocks
-- of the queries that are not in the whitelist, by whether the query is privileged and whether its
-- risk reaches the level for blocking.
pub must_block : DbBlockStatus → Bool → Bool → Bool
must_block always_block_new privileged risky = true
must_block risk_block privileged risky = privileged || risky
must_block privilege_block privileged risky = privileged
must_block _ privileged risky = false

str_lowercase-ne-nil : (s : Bytes) → s ≢ [] → str_lowercase s ≢ []
unfolding str_lowercase
str_lowercase-ne-nil [] h = absurd (h refl)
str_lowercase-ne-nil (c ∷ s) h = λ e. cc

decide-allowed :
    (conf : GreenSqlConfig) (status : DbBlockStatus) (in_whitelist privileged : Bool)
    (query pattern reason : Bytes) (risk : ℤ)
    → (decide conf status in_whitelist privileged query pattern reason risk).allowed
      ≡ (in_whitelist || not (must_block status privileged (int_leb conf.re_block_level risk)))
unfolding decide must_block
decide-allowed conf risk_block w p q t r k = ground arith
decide-allowed conf _ w p q t r k = ground arith

abbrev pub privileged_of : Context → Bytes → Bool
privileged_of c pattern = (check_blacklist c pattern []).0

abbrev pub risk_of : Context → Bytes → Bytes → ℤ
risk_of c query pattern = to_int (assess c query pattern).0

-- Every query that is not empty is decided on. It passes if its pattern is in the whitelist, or if
-- the mode of the database does not block it.
pub check_query-allowed :
    (c : Context) (query : Bytes)
    → query ≢ []
    → (pattern : Bytes) × (normalize_query c.db_type (str_lowercase query) ≡ some pattern)
      × (o : Outcome) × (check_query c query ≡ some o)
      × (o.allowed ≡ (
          is_whitelisted c pattern
          || not (
              must_block c.db.block_status
                (privileged_of c pattern)
                (int_leb c.conf.re_block_level (risk_of c query pattern)))))
unfolding check_query
check_query-allowed c query h =
    let (pattern, e) =
      normalize_query_total c.db_type (str_lowercase query) (str_lowercase-ne-nil query h) in
    (
      pattern,
      e,
      check_pattern c query pattern,
      rw (e, check_query),
      decide-allowed c.conf c.db.block_status (is_whitelisted c pattern) (privileged_of c pattern)
          query pattern (assess c query pattern).1 (risk_of c query pattern),
    )
