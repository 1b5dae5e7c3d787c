-- ===== src/Driver/MySqlClient.antt =====
-- The calls of src/lib/sql_api.c as they are built with HAVE_MYSQL_CLIENT. The client library is a
-- parameter.
pub mod Rows
use greensql_fw.Base.{
  ◌>>=◌, ℕ, zero, suc, Bool, true, false, not, ◌==◌, if◌then◌else◌, Bytes, [], ◌∷◌, List, Option,
  none, some,
}
use greensql_fw.Driver.{Row, Driver}

-- mysql_query (whether it succeeds), mysql_store_result, mysql_fetch_row and mysql_affected_rows, on
-- connections `C` and results `R`.
pub record MySqlClient (C R : Type 0) : Type 0 where
  pub query : C → Bytes → C × Bool
  pub store_result : C → C × Option R
  pub fetch_row : R → R × Option Row
  pub affected_rows : C → ℕ

-- db_struct.
pub record MySqlStruct (R : Type 0) : Type 0 where
  pub res : Option R
  pub row : Option Row

-- `row[col]`, which is undefined behaviour behind the last column.
pub cell : Row → ℕ → Option (Option Bytes)
cell [] col = none
cell (c ∷ row) zero = some c
cell (c ∷ row) (suc col) = cell row col

module _ {C R : Type 0} (client : MySqlClient C R) where
  -- The row is a null pointer before the first fetch.
  pub db_col_text : MySqlStruct R → ℕ → Option (Option Bytes)
  db_col_text db col = db.row >>= (λ row. cell row col)

  pub db_fetch_row : MySqlStruct R → Option (MySqlStruct R × Bool)
  db_fetch_row db = do
    res ← db.res
    let (rest, row) = client.fetch_row res
    let next : MySqlStruct R = record { res = some rest; row = row }
    some (next, elim row [ none ↦ false | some r ↦ true ])

  pub db_query : C → MySqlStruct R → Bytes → C × MySqlStruct R × Bool
  db_query c db q =
      let (asked, success) = client.query c q in
      let (stored, res) = client.store_result asked in
      if success
      then (stored, record db { res = res }, true)
      else (asked, record db { res = none }, false)

  pub db_exec : C → Bytes → C × Bool
  db_exec c q = client.query c q

  pub db_changes : C → Bool
  db_changes c = not (client.affected_rows c == 0)

  pub db_cleanup : MySqlStruct R → MySqlStruct R
  db_cleanup db = record db { res = none }

  pub my_sql_driver : Driver (MySqlStruct R)
  my_sql_driver = record { fetch_row = db_fetch_row; col_text = db_col_text }
