-- ===== src/Parser.antt =====
-- src/parser/parser.cpp: what the grammar reports of a query, and what query_parse makes of it. The
-- scanner and grammar are a parameter: the calls back that they make for a query, in order. The
-- tables of patterns are always there, and the objects that the grammar leaves are freed.
pub mod Flags
mod Tests
use greensql_fw.Base.{
  Bool, true, false, not, ◌&&◌, ◌||◌, ◌==◌, Bytes, [], ◌∷◌, List, length, if◌then◌else◌,
}
use greensql_fw.Base.Int.{ℤ, pos, int_leb}
use greensql_fw.Patterns.{
  Pcre, SqlPatterns, sql_s_tables, sql_true_constants, sql_bruteforce_functions, match_pattern,
  has_true_constant_patterns, has_bruteforce_patterns,
}
use greensql_fw.Config.{GreenSqlConfig}
use greensql_fw.Connection.{QueryRisk}

-- The calls back that change the risk.
pub data Callback : Type 0 where
  found_or_token found_union_token found_empty_pwd found_comment found_tautology : Callback
  found_query_separator found_bruteforce_function : Callback
  found_table : Bytes → Callback
  check_bruteforce_function : Bytes → Callback

-- What the calls look at.
pub record Tables : Type 0 where
  pub pcre : Pcre
  pub patterns : SqlPatterns
  pub conf : GreenSqlConfig

-- `memset` of the risk to zero.
abbrev pub no_risk : QueryRisk
no_risk = record {
  has_bruteforce_function = false;
  has_separator = false;
  has_tautology = false;
  has_empty_pwd = false;
  has_s_table = false;
  has_comment = false;
  has_union = false;
  has_or = false;
}

-- Whether clb_found_table finds a sensitive table.
unfoldable pub is_s_table : Tables → Bytes → Bool
is_s_table t s =
    not (length s == 0)
    && int_leb (pos 0) t.conf.re_s_tables
    && match_pattern t.pcre t.patterns sql_s_tables s

-- clb_check_true_constant: it only answers, and the grammar goes by its answer.
unfoldable pub check_true_constant : Tables → Bytes → Bool
check_true_constant t s =
    not (length s == 0)
    && has_true_constant_patterns t.pcre t.patterns
    && match_pattern t.pcre t.patterns sql_true_constants s

-- The answer of clb_check_bruteforce_function.
unfoldable pub is_bruteforce_function : Tables → Bytes → Bool
is_bruteforce_function t s =
    not (length s == 0)
    && has_bruteforce_patterns t.pcre t.patterns
    && match_pattern t.pcre t.patterns sql_bruteforce_functions s

pub call_back : Tables → QueryRisk → Callback → QueryRisk
call_back t risk found_or_token = record risk { has_or = true }
call_back t risk found_union_token = record risk { has_union = true }
call_back t risk found_empty_pwd = record risk { has_empty_pwd = true }
call_back t risk found_comment = record risk { has_comment = true }
call_back t risk found_tautology = record risk { has_tautology = true }
call_back t risk found_query_separator = record risk { has_separator = true }
call_back t risk found_bruteforce_function = record risk { has_bruteforce_function = true }
call_back t risk (found_table s) =
    if is_s_table t s then record risk { has_s_table = true } else risk
call_back t risk (check_bruteforce_function s) =
    if is_bruteforce_function t s then record risk { has_bruteforce_function = true } else risk

pub call_all : Tables → QueryRisk → List Callback → QueryRisk
call_all t risk [] = risk
call_all t risk (c ∷ calls) = call_all t (call_back t risk c) calls

unfoldable pub query_parse : (Bytes → List Callback) → Tables → Bytes → QueryRisk
unfolding call_all call_back
query_parse scan_buffer t q = call_all t no_risk (scan_buffer q)
