-- ===== src/Patterns.antt =====
-- SQLPatterns of src/patterns.hpp and src/patterns.cpp. The regular expressions are those of the
-- library PCRE, which is a parameter: what `pcre_compile` makes of a text (`none` is a failure) and
-- what `pcre_exec` answers.
use greensql_fw.Base.{
  ◌-◌, Bool, true, false, ◌&&◌, ◌||◌, ltb, ◌==◌, if◌then◌else◌, Bytes, [], ◌∷◌, ◌++◌, List, Option,
  none, some, length, equal, codes, char_at, take, drop,
}
use greensql_fw.Base.Int.{ℤ, pos, negsuc}
use greensql_fw.Misc.{trim_str, find_byte}

pub data MatchType : Type 0 where
  sql_alter sql_create sql_drop sql_info sql_block sql_s_tables sql_empty_pwd sql_var_cmp :
      MatchType
  sql_true_constants sql_bruteforce_functions : MatchType

-- The texts of the patterns: the fields `…_str`.
pub record PatternTexts : Type 0 where
  pub alter_str : Bytes
  pub create_str : Bytes
  pub drop_str : Bytes
  pub info_str : Bytes
  pub block_str : Bytes
  pub s_tables_str : Bytes
  pub empty_pwd_str : Bytes
  pub var_cmp_str : Bytes
  pub true_constants_str : Bytes
  pub bruteforce_functions_str : Bytes

abbrev no_texts : PatternTexts
no_texts = record {
  alter_str = [];
  create_str = [];
  drop_str = [];
  info_str = [];
  block_str = [];
  s_tables_str = [];
  empty_pwd_str = [];
  var_cmp_str = [];
  true_constants_str = [];
  bruteforce_functions_str = [];
}

-- A pattern object: the texts, and those that were compiled last, for the fields `…_re` and `…_pe`;
-- none where these are null.
pub record SqlPatterns : Type 0 where
  pub texts : PatternTexts
  pub compiled : Option PatternTexts

-- clear.
unfoldable pub clear : SqlPatterns
clear = record { texts = no_texts; compiled = none }

-- `if (str.length() > 0) str += "|"; str += line;`
pub add_alternative : Bytes → Bytes → Bytes
add_alternative str line = (if ltb 0 (length str) then str ++ (b'|' ∷ []) else str) ++ line

pub load_pattern : Bytes → Bytes → PatternTexts → PatternTexts
unfolding add_alternative
load_pattern section line p =
    if equal section (codes "alter")
    then record p { alter_str = add_alternative p.alter_str line }
    else if equal section (codes "create")
    then record p { create_str = add_alternative p.create_str line }
    else if equal section (codes "drop")
    then record p { drop_str = add_alternative p.drop_str line }
    else if equal section (codes "info")
    then record p { info_str = add_alternative p.info_str line }
    else if equal section (codes "block")
    then record p { block_str = add_alternative p.block_str line }
    else if equal section (codes "sensitive tables")
    then record p { s_tables_str = add_alternative p.s_tables_str line }
    else if equal section (codes "true constants")
    then record p { true_constants_str = add_alternative p.true_constants_str line }
    else if equal section (codes "bruteforce functions")
    then record p { bruteforce_functions_str = add_alternative p.bruteforce_functions_str line }
    else p

-- A line `[section]`: its name, or none where the line is refused.
section_of : Bytes → Option Bytes
section_of line = elim (find_byte b']' line) [
  | none ↦ none
  | some end_section ↦
      if end_section == 1 then none else some (take (end_section - 1) (drop 1 line))
]

-- What the loop of Load does with a line, or none where it gives up.
pub load_line : Bytes → PatternTexts → Bytes → Option (Bytes × PatternTexts)
unfolding section_of load_pattern
load_line section p line =
    let trimmed = trim_str line in
    if length line == 0
    then some (section, p)
    else if char_at line 0 == b'#' || char_at line 0 == b';'
    then some (section, p)
    else if char_at line 0 == b'['
    then elim (section_of line) [ none ↦ none | some name ↦ some (name, p) ]
    else if length trimmed == 0
    then some (section, p)
    else if length section == 0
    then none
    else some (section, load_pattern section trimmed p)

-- The texts behind the loop, and whether it came to the end of the file.
pub load_lines : Bytes → PatternTexts → List Bytes → PatternTexts × Bool
load_lines section p [] = (p, true)
load_lines section p (line ∷ lines) = elim (load_line section p line) [
  | none ↦ (p, false)
  | some (section', p') ↦ load_lines section' p' lines
]

abbrev wrap_nonempty : Bytes → Bytes → Bytes → Bytes
wrap_nonempty open_text close_text str =
    if ltb 0 (length str) then open_text ++ (str ++ close_text) else str

-- What Load does behind the loop, before the patterns are compiled.
pub finish : PatternTexts → PatternTexts
finish p = record p {
  true_constants_str = wrap_nonempty (codes "^(") (codes ")$") p.true_constants_str;
  bruteforce_functions_str = wrap_nonempty (codes "^(") (codes ")$") p.bruteforce_functions_str;
  s_tables_str = wrap_nonempty (codes "(") (codes ")") p.s_tables_str;
  empty_pwd_str =
      codes
        "((where\\s|and\\s|or\\s|not\\s|^)|(\\(\\s*))?(pass|password|pwd|passwd)\\s*\\=\\s*(\\'\\')|(\\\"\\\")";
  var_cmp_str = codes "((where\\s|and\\s|or\\s|not\\s|^)|(\\(\\s*))?\\?\\s*(>|!)?\\=\\s*\\?";
}

pub pattern_text : PatternTexts → MatchType → Bytes
pattern_text p sql_alter = p.alter_str
pattern_text p sql_create = p.create_str
pattern_text p sql_drop = p.drop_str
pattern_text p sql_info = p.info_str
pattern_text p sql_block = p.block_str
pattern_text p sql_s_tables = p.s_tables_str
pattern_text p sql_empty_pwd = p.empty_pwd_str
pattern_text p sql_var_cmp = p.var_cmp_str
pattern_text p sql_true_constants = p.true_constants_str
pattern_text p sql_bruteforce_functions = p.bruteforce_functions_str

-- The regular expressions of PCRE: whether a text compiles, and the result of `pcre_exec` for the
-- compiled text on a subject, negative where it does not match. A pattern that did not compile is a
-- null pointer, for which `pcre_exec` answers PCRE_ERROR_NULL, a negative number.
pub record Pcre : Type 0 where
  pub compiles : Bytes → Bool
  pub exec : Bytes → Bytes → ℤ

abbrev pcre_error_null : ℤ
pcre_error_null = negsuc 1

-- The compiled pattern of a text: null where the text is empty or does not compile.
pub is_compiled : Pcre → Option PatternTexts → MatchType → Bool
unfolding pattern_text
is_compiled pcre none type = false
is_compiled pcre (some t) type =
    ltb 0 (length (pattern_text t type)) && pcre.compiles (pattern_text t type)

run_pattern : Pcre → Option PatternTexts → MatchType → Bytes → ℤ
run_pattern pcre none type str = pcre_error_null
run_pattern pcre (some t) type str =
    if is_compiled pcre (some t) type then pcre.exec (pattern_text t type) str else pcre_error_null

abbrev is_match : ℤ → Bool
is_match (pos n) = true
is_match (negsuc n) = false

unfoldable pub match_pattern : Pcre → SqlPatterns → MatchType → Bytes → Bool
unfolding pattern_text run_pattern is_compiled
match_pattern pcre p type str =
    if length (pattern_text p.texts type) == 0
    then false
    else is_match (run_pattern pcre p.compiled type str)

-- HasTrueConstantPatterns and HasBruteforcePatterns.
pub has_true_constant_patterns : Pcre → SqlPatterns → Bool
unfolding is_compiled
has_true_constant_patterns pcre p = is_compiled pcre p.compiled sql_true_constants

pub has_bruteforce_patterns : Pcre → SqlPatterns → Bool
unfolding is_compiled
has_bruteforce_patterns pcre p = is_compiled pcre p.compiled sql_bruteforce_functions

-- compile_pattern compares the address `_re` of the result with null, and that is never null: a text
-- that does not compile leaves a null pointer and no error, so CompilePatterns compiles every text.
pub compile_patterns : SqlPatterns → SqlPatterns × Bool
compile_patterns p = (record p { compiled = some p.texts }, true)

load_texts : SqlPatterns → PatternTexts × Bool → SqlPatterns × Bool
unfolding finish compile_patterns
load_texts p (t, false) = (record p { texts = t }, false)
load_texts p (t, true) = ((compile_patterns (record p { texts = finish t })).0, true)

-- Load, on the lines of the file; none where the file cannot be opened.
unfoldable pub load : SqlPatterns → Option (List Bytes) → SqlPatterns × Bool
unfolding load_lines load_line load_texts
load p none = (p, false)
load p (some lines) = load_texts p (load_lines [] p.texts lines)
