-- ===== src/Parser/Tests.antt =====
-- A small run of query_parse.
use greensql_fw.Base.{Bytes, [], ◌∷◌, List, codes, ◌≡◌}
use greensql_fw.Config.{init}
use greensql_fw.Patterns.{clear}
use greensql_fw.Connection.Samples.{exact}
use greensql_fw.Parser.{Callback, Tables, found_or_token, found_tautology, found_table, query_parse}
use greensql_fw.Parser.Flags.{
  any, sets_or, sets_union, sets_empty_pwd, sets_comment, sets_tautology, sets_separator,
  sets_s_table, sets_bruteforce, query_parse-fields,
}

abbrev tables : Tables
tables = record { pcre = exact; patterns = clear; conf = init }

-- The calls for `select ... from users where id=1 or 1=1`, whatever the query is.
abbrev calls : Bytes → List Callback
calls q = found_table (codes "users") ∷ found_or_token ∷ found_tautology ∷ []

abbrev query : Bytes
query = codes "select * from users where id=1 or 1=1"

query_parse-fields_example :
    ((query_parse calls tables query).has_or ≡ any sets_or (calls query))
    × ((query_parse calls tables query).has_union ≡ any sets_union (calls query))
    × ((query_parse calls tables query).has_empty_pwd ≡ any sets_empty_pwd (calls query))
    × ((query_parse calls tables query).has_comment ≡ any sets_comment (calls query))
    × ((query_parse calls tables query).has_tautology ≡ any sets_tautology (calls query))
    × ((query_parse calls tables query).has_separator ≡ any sets_separator (calls query))
    × ((query_parse calls tables query).has_s_table ≡ any (sets_s_table tables) (calls query))
    × ((query_parse calls tables query).has_bruteforce_function
        ≡ any (sets_bruteforce tables) (calls query))
query_parse-fields_example = query_parse-fields calls tables query
