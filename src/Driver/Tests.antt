-- ===== src/Driver/Tests.antt =====
-- A result of two rows with libpq, and the escaping of a text with a zero (src/lib/sql_api.c).
use greensql_fw.Base.{
  ℕ, ◌+◌, ◌*◌, ◌≤◌, ◌==◌, if◌then◌else◌, true, Bytes, [], ◌∷◌, ◌++◌, none, some, codes, length, ◌≡◌,
  refl, arith,
}
use greensql_fw.Driver.{fetch_loop}
use greensql_fw.Driver.Escape.{IsEscape, db_escape_string, zero_free, db_escape_string_zero}
use greensql_fw.Driver.PgClient.{PgClient, PgStruct, tuples_ok, pg_driver, db_query}
use greensql_fw.Driver.PgClient.Rows.{pg-fetch_loop, struct_at, table}

-- A result is the number of its rows; the cells of a row are the text of its number.
abbrev pg_client : PgClient ℕ ℕ
pg_client = record {
  exec = λ c q. (c, some 2);
  status = λ p. tuples_ok;
  ntuples = λ p. p;
  getvalue = λ p i col. some ((48 + i) ∷ []);
  cmd_tuples = λ p. none;
}

pg-fetch_loop_example :
    (db : PgStruct ℕ) × (db_query pg_client 0 (codes "select 1") ≡ (0, db, true))
    × (fetch_loop 3 (pg_driver pg_client) 1 db ≡ some (struct_at 2 2 2, table pg_client 2 1 0 2))
pg-fetch_loop_example = pg-fetch_loop pg_client 0 0 2 (codes "select 1") 1 refl refl

-- Quotes and zeros become two bytes.
abbrev escape : Bytes → Bytes
escape [] = []
escape (c ∷ s) =
    let rest = escape s in
    if c == 0 then b'\\' ∷ b'0' ∷ rest else if c == b'\'' then b'\\' ∷ b'\'' ∷ rest else c ∷ rest

escape-IsEscape : IsEscape escape
escape-IsEscape = record { shortest = shortest; longest = longest; zeros = zeros }
  where
    shortest : (s : Bytes) → length s ≤ length (escape s)
    shortest [] = omega arith
    shortest (c ∷ s) = ground (arith, shortest s)

    longest : (s : Bytes) → length (escape s) ≤ length s * 2
    longest [] = omega arith
    longest (c ∷ s) = ground (arith, longest s)

    zeros : (s : Bytes) → zero_free (escape s) ≡ true
    zeros [] = refl
    zeros (c ∷ s) = ground (arith, zeros s)

db_escape_string_zero_example :
    (db_escape_string escape (codes "it") ≡ some (escape (codes "it")))
    × (db_escape_string escape (codes "it" ++ (0 ∷ codes "'or'1'")) ≡ none)
db_escape_string_zero_example =
    db_escape_string_zero escape (codes "it") (codes "'or'1'") escape-IsEscape refl (omega arith)
