-- ===== src/Driver/PgClient/Rows.antt =====
-- The rows that the loops over a result of PostgreSQL read (src/lib/sql_api.c).
use greensql_fw.Base.{
  ℕ, zero, suc, ◌+◌, ◌-◌, true, false, ◌==◌, Bytes, [], ◌∷◌, List, some, ◌≡◌, refl, ◌∙◌, ap, arith,
}
use greensql_fw.Driver.{Row, columns, fetch_loop}
use greensql_fw.Driver.PgClient.{
  PgClient, PgStruct, tuples_ok, pg_driver, db_col_text, db_fetch_row, pgsql_fetch_row, db_query,
  query_result, is_empty_query, is_failed,
}

-- `n` cells of the row `i` of a result, from the column `col` on, and `count` such rows.
abbrev pub table_row : {C P : Type 0} → PgClient C P → P → ℕ → (n col : ℕ) → Row
table_row client p i zero col = []
table_row client p i (suc n) col = client.getvalue p i col ∷ table_row client p i n (col + 1)

abbrev pub table : {C P : Type 0} → PgClient C P → P → (n i count : ℕ) → List Row
table client p n i zero = []
table client p n i (suc count) = table_row client p i n 0 ∷ table client p n (i + 1) count

-- A result with `rows` rows, of which `cur` are fetched.
abbrev pub struct_at : {P : Type 0} → P → ℕ → ℕ → PgStruct P
struct_at p rows cur = record { pgres = some p; maxpgrows = rows; curpgrow = cur }

pg-columns :
    {C P : Type 0} (client : PgClient C P) (p : P) (rows i n col : ℕ)
    → columns (pg_driver client) (struct_at p rows (suc i)) n col
      ≡ some (table_row client p i n col)
unfolding columns pg_driver db_col_text
pg-columns client p rows i zero col = refl
pg-columns client p rows i (suc n) col =
    let fetched : (suc i == 0) ≡ false = ground arith in
    let last : suc i - 1 ≡ i = omega arith in
    rw (fetched, last, pg-columns client p rows i n (col + 1))

pg-fetch_rest :
    {C P : Type 0} (client : PgClient C P) (p : P) (n count rows i : ℕ)
    → i + count ≡ rows
    → fetch_loop (count + 1) (pg_driver client) n (struct_at p rows i)
      ≡ some (struct_at p rows rows, table client p n i count)
unfolding fetch_loop pg_driver db_fetch_row pgsql_fetch_row
pg-fetch_rest client p n zero rows i h =
    let end : i ≡ rows = omega (arith, h) in
    let here : (rows == rows) ≡ true = ground arith in rw (end, here)
pg-fetch_rest client p n (suc count) rows i h =
    let inside : (i == rows) ≡ false = ground (arith, h) in
    let fuel : suc count + 1 ≡ suc (count + 1) = omega arith in
    let next : suc i ≡ i + 1 = omega arith in
    rw (
      fuel,
      inside,
      pg-columns client p rows i n 0,
      next,
      pg-fetch_rest client p n count rows (i + 1) (omega (arith, h)),
    )

-- A query of PostgreSQL that has a result of rows: it succeeds, and the loop over the result ends one
-- round behind the last row and has read the columns of all rows, in their order, whatever the
-- library answers for a cell.
pub pg-fetch_loop :
    {C P : Type 0} (client : PgClient C P) (c next : C) (p : P) (q : Bytes) (n : ℕ)
    → client.exec c q ≡ (next, some p)
    → client.status p ≡ tuples_ok
    → (db : PgStruct P) × (db_query client c q ≡ (next, db, true))
      × (fetch_loop (client.ntuples p + 1) (pg_driver client) n db
          ≡ some (
            struct_at p (client.ntuples p) (client.ntuples p),
            table client p n 0 (client.ntuples p),
          ))
unfolding db_query query_result is_empty_query is_failed
pg-fetch_loop client c next p q n e s = (
  struct_at p (client.ntuples p) 0,
  ap (query_result client) e ∙ rw s,
  pg-fetch_rest client p n (client.ntuples p) (client.ntuples p) 0 (omega arith),
)
