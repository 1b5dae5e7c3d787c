-- ===== src/Connection/Risk.antt =====
-- The risk of a query (calculateRisk of src/connection.cpp).
use greensql_fw.Base.{
  ℕ, ◌+◌, ◌%◌, Bool, ◌&&◌, ◌||◌, if◌then◌else◌, Bytes, ◌≡◌, refl, ◌∙◌, ap, arith,
}
use greensql_fw.Base.Int.{ℤ, pos, negsuc, pos_part, is_positive, int_leb, to_int, u32_mod}
use greensql_fw.Config.{GreenSqlConfig, init}
use greensql_fw.Connection.{QueryRisk, add_risk, calculate_risk}

-- What a finding adds: its weight, unless that is negative.
abbrev pub contribution : ℤ → Bool → ℕ
contribution weight found = if found then pos_part weight else 0

-- The weights of what the parser found, without a bound.
unfoldable pub total : GreenSqlConfig → QueryRisk → ℕ
total conf risk =
    contribution conf.re_sql_comments risk.has_comment
    + contribution conf.re_s_tables risk.has_s_table
    + contribution conf.re_multiple_queries risk.has_separator
    + contribution conf.re_or_token risk.has_or
    + contribution conf.re_union_token risk.has_union
    + contribution conf.re_var_cmp_var risk.has_tautology
    + contribution conf.re_empty_password risk.has_empty_pwd
    + contribution conf.re_bruteforce risk.has_bruteforce_function

-- The risk behind one test.
step : ℤ → Bool → ℕ → ℕ
step weight found ret =
    if is_positive weight && found then (ret + pos_part weight) % u32_mod else ret

add_risk-step :
    (weight : ℤ) (found : Bool) (text : Bytes) (s : ℕ × Bytes)
    → (add_risk weight found text s).0 ≡ step weight found s.0
unfolding add_risk step
add_risk-step weight found text (ret, reason) = ground arith

step-mod :
    (weight : ℤ) (found : Bool) (ret n : ℕ)
    → ret ≡ n % u32_mod
    → step weight found ret ≡ (n + contribution weight found) % u32_mod
unfolding step
step-mod (pos w) found ret n e = ground arith
step-mod (negsuc w) found ret n e = ground arith

-- The risk is the sum of the weights of what was found, as an unsigned int. A weight that is not
-- positive counts for nothing.
pub calculate_risk-total :
    (conf : GreenSqlConfig) (risk : QueryRisk) (reason : Bytes)
    → (calculate_risk conf risk reason).0 ≡ total conf risk % u32_mod
unfolding calculate_risk total
calculate_risk-total conf risk reason = simp add_risk-step (
    step-mod conf.re_bruteforce risk.has_bruteforce_function _ _ (
      step-mod conf.re_empty_password risk.has_empty_pwd _ _ (
        step-mod conf.re_var_cmp_var risk.has_tautology _ _ (
          step-mod conf.re_union_token risk.has_union _ _ (
            step-mod conf.re_or_token risk.has_or _ _ (
              step-mod conf.re_multiple_queries risk.has_separator _ _ (
                step-mod conf.re_s_tables risk.has_s_table _ _
                  (step-mod conf.re_sql_comments risk.has_comment 0 0 refl)))))))
    ∙ ap (λ n. n % u32_mod) (omega arith))

default_table :
    (comment table separator or_token union tautology pwd bruteforce : Bool)
    → int_leb (pos 30) (
        to_int (
          ((if comment then 30 else 0)
            + (if table then 10 else 0)
            + (if separator then 30 else 0)
            + (if or_token then 5 else 0)
            + (if union then 5 else 0)
            + (if tautology then 30 else 0)
            + (if pwd then 30 else 0)
            + (if bruteforce then 15 else 0))
          % u32_mod))
      ≡ (comment || separator || tautology || pwd || (table && bruteforce && (or_token || union)))
default_table a b c d e f g h = ground arith

-- With the default settings a query reaches the level for blocking exactly if it has a comment,
-- several statements, an expression that is always true or an empty password, or if it asks a
-- sensitive table by a function for guessing with `or` or `union` beside.
default_blocks :
    (risk : QueryRisk) (reason : Bytes)
    → int_leb init.re_block_level (to_int (calculate_risk init risk reason).0) ≡ (
        risk.has_comment
        || risk.has_separator
        || risk.has_tautology
        || risk.has_empty_pwd
        || (risk.has_s_table && risk.has_bruteforce_function && (risk.has_or || risk.has_union)))
unfolding init total
default_blocks risk reason = rw (calculate_risk-total init risk reason) (
    default_table risk.has_comment risk.has_s_table risk.has_separator risk.has_or risk.has_union
      risk.has_tautology risk.has_empty_pwd risk.has_bruteforce_function)
