-- ===== src/Config.antt =====
-- GreenSQLConfig of src/config.hpp and src/config.cpp. The lines of the file come in as an argument.
pub mod Backend
pub mod Load
mod Tests
use greensql_fw.Base.{
  ℕ, zero, suc, ◌+◌, ◌-◌, ◌*◌, Bool, true, false, not, ◌&&◌, ◌||◌, ltb, leb, ◌==◌, if◌then◌else◌,
  Bytes, [], ◌∷◌, List, Option, none, some, length, equal, codes, char_at, take, drop,
}
use greensql_fw.Base.Int.{ℤ, pos, negsuc}
use greensql_fw.Misc.{trim_str, parse_conf_line, str_lowercase, find_byte}
use greensql_fw.Config.Backend.{BackendDb, db_my_sql, db_pg_sql}

pub record GreenSqlConfig : Type 0 where
  pub re_block_level : ℤ
  pub re_warn_level : ℤ
  pub re_sql_comments : ℤ
  pub re_s_tables : ℤ
  pub re_or_token : ℤ
  pub re_union_token : ℤ
  pub re_var_cmp_var : ℤ
  pub re_always_true : ℤ
  pub re_empty_password : ℤ
  pub re_multiple_queries : ℤ
  pub re_bruteforce : ℤ
  pub log_level : ℤ
  pub log_file : Bytes
  pub s_db_type : BackendDb
  pub s_db_host : Bytes
  pub i_db_port : ℤ
  pub s_db_name : Bytes
  pub s_db_user : Bytes
  pub s_db_pass : Bytes
  pub b_support : Bool
  pub b_running : Bool

-- init: the default settings. No field keeps its old value.
unfoldable pub init : GreenSqlConfig
init = record {
  re_block_level = pos 30;
  re_warn_level = pos 20;
  re_sql_comments = pos 30;
  re_s_tables = pos 10;
  re_or_token = pos 5;
  re_union_token = pos 5;
  re_var_cmp_var = pos 30;
  re_always_true = pos 30;
  re_empty_password = pos 30;
  re_multiple_queries = pos 30;
  re_bruteforce = pos 15;
  log_level = pos 3;
  log_file = codes "/var/log/greensql.log";
  s_db_type = db_my_sql;
  s_db_host = codes "127.0.0.1";
  i_db_port = pos 3306;
  s_db_name = codes "greendb";
  s_db_user = codes "green";
  s_db_pass = codes "green";
  b_support = true;
  b_running = true;
}

abbrev is_digit : ℕ → Bool
is_digit c = leb b'0' c && leb c b'9'

atoi_digits : ℕ → Bytes → ℕ
atoi_digits acc [] = acc
atoi_digits acc (c ∷ s) = if is_digit c then atoi_digits (acc * 10 + (c - 48)) s else acc

abbrev negate : ℕ → ℤ
negate n = elim n [ zero ↦ pos 0 | suc m ↦ negsuc m ]

-- `atoi`, on a value: no blank stands in front of it. The number is taken to fit an int.
atoi : Bytes → ℤ
unfolding atoi_digits
atoi [] = pos 0
atoi (c ∷ s) =
    if c == b'-'
    then negate (atoi_digits 0 s)
    else if c == b'+'
    then pos (atoi_digits 0 s)
    else pos (atoi_digits 0 (c ∷ s))

unfoldable pub parse_db_type : Bytes → BackendDb
parse_db_type type =
    if equal type (codes "mysql")
    then db_my_sql
    else if equal type (codes "pgsql") || equal type (codes "postgresql")
    then db_pg_sql
    else db_my_sql

abbrev port_of : BackendDb → ℤ → ℤ
port_of db_my_sql port = port
port_of db_pg_sql (pos n) = if n == 3306 then pos 5432 else pos n
port_of db_pg_sql (negsuc n) = negsuc n

pub parse_db_setting : Bytes → Bytes → GreenSqlConfig → GreenSqlConfig
unfolding parse_db_type atoi
parse_db_setting key value c =
    if equal key (codes "dbname")
    then record c { s_db_name = value }
    else if equal key (codes "dbuser")
    then record c { s_db_user = value }
    else if equal key (codes "dbpass")
    then record c { s_db_pass = value }
    else if equal key (codes "dbhost")
    then record c { s_db_host = value }
    else if equal key (codes "dbport")
    then record c { i_db_port = atoi value }
    else if equal key (codes "dbtype")
    then record c {
      s_db_type = parse_db_type value;
      i_db_port = port_of (parse_db_type value) c.i_db_port;
    }
    else c

pub parse_re_setting : Bytes → Bytes → GreenSqlConfig → GreenSqlConfig
unfolding atoi
parse_re_setting key_as_given value c =
    let key = str_lowercase key_as_given in
    if equal key (codes "block_level")
    then record c { re_block_level = atoi value }
    else if equal key (codes "warn_level")
    then record c { re_warn_level = atoi value }
    else if equal key (codes "risk_sql_comments")
    then record c { re_sql_comments = atoi value }
    else if equal key (codes "risk_senstivite_tables")
    then record c { re_s_tables = atoi value }
    else if equal key (codes "risk_or_token")
    then record c { re_or_token = atoi value }
    else if equal key (codes "risk_union_token")
    then record c { re_union_token = atoi value }
    else if equal key (codes "risk_var_cmp_var")
    then record c { re_var_cmp_var = atoi value }
    else if equal key (codes "risk_always_true")
    then record c { re_always_true = atoi value }
    else if equal key (codes "risk_empty_password")
    then record c { re_empty_password = atoi value }
    else if equal key (codes "risk_multiple_queries")
    then record c { re_multiple_queries = atoi value }
    else if equal key (codes "risk bruteforce")
    then record c { re_bruteforce = atoi value }
    else c

pub parse_log_setting : Bytes → Bytes → GreenSqlConfig → GreenSqlConfig
unfolding atoi
parse_log_setting key value c =
    if equal key (codes "loglevel")
    then record c { log_level = atoi value }
    else if equal key (codes "logfile")
    then record c { log_file = value }
    else c

pub parse_setting : Bytes → Bytes → Bytes → GreenSqlConfig → GreenSqlConfig
unfolding parse_db_setting parse_re_setting parse_log_setting
parse_setting section key value c =
    if equal section (codes "database")
    then parse_db_setting key value c
    else if equal section (codes "risk engine")
    then parse_re_setting key value c
    else if equal section (codes "logging")
    then parse_log_setting key value c
    else c

-- A line `[section]`: its name, or none where the line is refused.
pub section_of : Bytes → Option Bytes
section_of line = elim (find_byte b']' line) [
  | none ↦ none
  | some end_section ↦
      if end_section == 1 then none else some (take (end_section - 1) (drop 1 line))
]

-- What the loop does with one line: the section and the settings behind it, or none where `load`
-- gives up.
pub load_line : Bytes → GreenSqlConfig → Bytes → Option (Bytes × GreenSqlConfig)
unfolding parse_setting section_of
load_line section c raw =
    let line = trim_str raw in
    if length raw == 0
    then some (section, c)
    else if char_at raw 0 == b'#' || char_at raw 0 == b';'
    then some (section, c)
    else if char_at line 0 == b'['
    then elim (section_of line) [ none ↦ none | some name ↦ some (str_lowercase name, c) ]
    else elim (parse_conf_line line) [
      | none ↦ none
      | some (key, value) ↦ some (section, parse_setting section (str_lowercase key) value c)
    ]

pub load_lines : Bytes → GreenSqlConfig → List Bytes → GreenSqlConfig × Bool
load_lines section c [] = (c, true)
load_lines section c (raw ∷ lines) = elim (load_line section c raw) [
  | none ↦ (c, false)
  | some (section', c') ↦ load_lines section' c' lines
]

-- load, on the lines of the file, or none where the file cannot be opened.
unfoldable pub load : GreenSqlConfig → Option (List Bytes) → GreenSqlConfig × Bool
unfolding load_lines load_line
load c none = (c, false)
load c (some lines) = load_lines [] init lines
