-- ===== src/Driver.antt =====
-- src/lib/sql_api.c: the calls of the configuration database, of which one library is built for
-- MySQL and one for PostgreSQL, and the loops of the callers over the rows of a result.
pub mod MySqlClient
pub mod PgClient
pub mod Escape
mod Tests
use greensql_fw.Base.{
  ◌>>=◌, ℕ, zero, suc, ◌+◌, Bool, if◌then◌else◌, Bytes, [], ◌∷◌, List, Option, none, some,
}

-- The cells of a row, with a null pointer for NULL.
abbrev pub Row : Type 0
Row = List (Option Bytes)

-- db_fetch_row and db_col_text on a db_struct. `none` is undefined behaviour.
pub record Driver (S : Type 0) : Type 0 where
  pub fetch_row : S → Option (S × Bool)
  pub col_text : S → ℕ → Option (Option Bytes)

-- The columns that a caller reads of a row, `n` of them from `col` on.
pub columns : {S : Type 0} → Driver S → S → ℕ → ℕ → Option Row
columns driver db zero col = some []
columns driver db (suc n) col = do
  cell ← driver.col_text db col
  rest ← columns driver db n (col + 1)
  some (cell ∷ rest)

-- `while (db_fetch_row(&db)) { ... }` with `n` columns read in a round.
pub fetch_loop : {S : Type 0} → ℕ → Driver S → ℕ → S → Option (S × List Row)
fetch_loop zero driver n db = none
fetch_loop (suc fuel) driver n db = do
  (next, more) ← driver.fetch_row db
  let round = do
    row ← columns driver next n 0
    (last, rows) ← fetch_loop fuel driver n next
    some (last, row ∷ rows)
  if more then round else some (next, [])
