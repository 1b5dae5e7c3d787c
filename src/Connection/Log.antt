-- ===== src/Connection/Log.antt =====
-- What check_query of src/connection.cpp logs and learns.
use greensql_fw.Base.{
  Bool, true, false, not, ◌&&◌, ◌||◌, if◌then◌else◌, Bytes, [], ◌∷◌, List, ◌≡◌, arith,
}
use greensql_fw.Base.Int.{ℤ, int_leb, to_int}
use greensql_fw.Permissions.{DbBlockStatus, risk_block}
use greensql_fw.Config.{GreenSqlConfig}
use greensql_fw.Connection.{
  Context, Action, log_alert, log_whitelist, add_to_whitelist, blocked, check_blacklist,
  check_pattern, is_learning, is_always_block_new, decide, is_whitelisted, assess,
}

-- An alert of the level BLOCKED.
pub reports_block : List Action → Bool
reports_block [] = false
reports_block (log_alert e ∷ rest) = elim e.level [ blocked ↦ true | _ ↦ reports_block rest ]
reports_block (_ ∷ rest) = reports_block rest

pub learned : List Action → List Bytes
learned [] = []
learned (add_to_whitelist pattern ∷ rest) = pattern ∷ learned rest
learned (_ ∷ rest) = learned rest

-- The query and the pattern of each entry of the log.
pub logged : List Action → List (Bytes × Bytes)
logged [] = []
logged (log_alert e ∷ rest) = (e.query, e.pattern) ∷ logged rest
logged (log_whitelist e ∷ rest) = (e.query, e.pattern) ∷ logged rest
logged (add_to_whitelist p ∷ rest) = logged rest

-- Whether a query that is not in the whitelist is worth an entry.
pub is_notable : GreenSqlConfig → DbBlockStatus → Bool → ℤ → Bool
is_notable conf status privileged risk =
    is_always_block_new status
    || privileged
    || is_learning status
    || int_leb conf.re_block_level risk
    || int_leb conf.re_warn_level risk

decide-reports_block :
    (conf : GreenSqlConfig) (status : DbBlockStatus) (w p : Bool) (q t r : Bytes) (k : ℤ)
    → reports_block (decide conf status w p q t r k).actions
      ≡ not (decide conf status w p q t r k).allowed
unfolding decide reports_block
decide-reports_block conf risk_block w p q t r k = ground arith
decide-reports_block conf _ w p q t r k = ground arith

decide-learned :
    (conf : GreenSqlConfig) (status : DbBlockStatus) (w p : Bool) (q t r : Bytes) (k : ℤ)
    → learned (decide conf status w p q t r k).actions
      ≡ (if is_learning status && not w then t ∷ [] else [])
unfolding decide learned
decide-learned conf risk_block w p q t r k = ground arith
decide-learned conf _ w p q t r k = ground arith

decide-logged :
    (conf : GreenSqlConfig) (status : DbBlockStatus) (w p : Bool) (q t r : Bytes) (k : ℤ)
    → logged (decide conf status w p q t r k).actions
      ≡ (if not w && is_notable conf status p k then (q, t) ∷ [] else [])
unfolding decide logged is_notable
decide-logged conf risk_block w p q t r k = ground arith
decide-logged conf _ w p q t r k = ground arith

-- check_query reports a block exactly when it blocks. It makes one entry of the log, with the query
-- as it came and its pattern, for a query that is not in the whitelist and is privileged, risky, new
-- where nothing new may pass, or learned; and it learns exactly the patterns of the learning modes
-- that the whitelist lacks.
pub check_pattern-actions :
    (c : Context) (query pattern : Bytes)
    → let o = check_pattern c query pattern in
      let w = is_whitelisted c pattern in
      let status = c.db.block_status in
      (reports_block o.actions ≡ not o.allowed)
      × (logged o.actions ≡ (
          if not w
            && is_notable c.conf status
                (check_blacklist c pattern []).0
                (to_int (assess c query pattern).0)
          then (query, pattern) ∷ []
          else []))
      × (learned o.actions ≡ (if is_learning status && not w then pattern ∷ [] else []))
unfolding check_pattern
check_pattern-actions c query pattern =
    let w = is_whitelisted c pattern in
    let p = (check_blacklist c pattern []).0 in
    let r = (assess c query pattern).1 in
    let k = to_int (assess c query pattern).0 in
    (
      decide-reports_block c.conf c.db.block_status w p query pattern r k,
      decide-logged c.conf c.db.block_status w p query pattern r k,
      decide-learned c.conf c.db.block_status w p query pattern r k,
    )
