-- ===== src/Connection/Samples.antt =====
-- A small context for check_query: a whitelist of one pattern and no patterns of privileged queries.
use greensql_fw.Base.{true, false, [], ◌∷◌, codes, equal, if◌then◌else◌}
use greensql_fw.Base.Int.{pos, negsuc}
use greensql_fw.Normalization.Pattern.{db_type_my_sql}
use greensql_fw.Permissions.{new_perm_obj}
use greensql_fw.Patterns.{Pcre, clear}
use greensql_fw.Config.{init}
use greensql_fw.Connection.{QueryRisk, Context}

-- Every text compiles, and matches itself only.
abbrev pub exact : Pcre
exact = record {
  compiles = λ text. true;
  exec = λ text str. if equal text str then pos 0 else negsuc 0;
}

-- A parser that finds a tautology in everything.
abbrev pub tautology : QueryRisk
tautology = record {
  has_bruteforce_function = false;
  has_separator = false;
  has_tautology = true;
  has_empty_pwd = false;
  has_s_table = false;
  has_comment = false;
  has_union = false;
  has_or = false;
}

abbrev pub context : Context
context = record {
  query_parse = λ q. tautology;
  pcre = exact;
  patterns = clear;
  conf = init;
  db = record new_perm_obj { exceptions = (codes "select ?", pos 1) ∷ [] };
  db_type = db_type_my_sql;
}
