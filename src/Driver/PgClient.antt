-- ===== src/Driver/PgClient.antt =====
-- The calls of src/lib/sql_api.c as they are built with HAVE_PGSQL_CLIENT. The client library is a
-- parameter.
pub mod Rows
use greensql_fw.Base.{
  ◌>>=◌, ℕ, zero, suc, ◌-◌, Bool, true, false, not, ◌==◌, if◌then◌else◌, Bytes, [], ◌∷◌, List,
  Option, none, some,
}
use greensql_fw.Driver.{Row, Driver}

-- ExecStatusType.
pub data ExecStatus : Type 0 where
  empty_query command_ok tuples_ok copy_out copy_in bad_response nonfatal_error fatal_error :
      ExecStatus

-- PQexec, PQresultStatus, PQntuples, PQgetvalue, and the number that PQcmdTuples spells, on
-- connections `C` and results `P`. A null pointer is `none`.
pub record PgClient (C P : Type 0) : Type 0 where
  pub exec : C → Bytes → C × Option P
  pub status : P → ExecStatus
  pub ntuples : P → ℕ
  pub getvalue : P → ℕ → ℕ → Option Bytes
  pub cmd_tuples : P → Option ℕ

-- db_struct.
pub record PgStruct (P : Type 0) : Type 0 where
  pub pgres : Option P
  pub maxpgrows : ℕ
  pub curpgrow : ℕ

-- pgsqldbConn and pgres_temp.
pub record PgGlobals (C P : Type 0) : Type 0 where
  pub conn : C
  pub temp : Option P

-- PGRES_BAD_RESPONSE or PGRES_FATAL_ERROR.
pub is_failed : ExecStatus → Bool
is_failed bad_response = true
is_failed fatal_error = true
is_failed _ = false

pub is_empty_query : ExecStatus → Bool
is_empty_query empty_query = true
is_empty_query _ = false

pub is_command_ok : ExecStatus → Bool
is_command_ok command_ok = true
is_command_ok _ = false

module _ {C P : Type 0} (client : PgClient C P) where
  -- `curpgrow-1` is the row that was fetched last; there is none before the first fetch.
  pub db_col_text : PgStruct P → ℕ → Option (Option Bytes)
  db_col_text db col = do
    p ← db.pgres
    if db.curpgrow == 0 then none else some (client.getvalue p (db.curpgrow - 1) col)

  pub pgsql_fetch_row : PgStruct P → PgStruct P × Bool
  pgsql_fetch_row db = elim db.pgres [
    | none ↦ (db, false)
    | some p ↦
        if db.curpgrow == db.maxpgrows
        then (db, false)
        else (record db { curpgrow = suc db.curpgrow }, true)
  ]

  pub db_fetch_row : PgStruct P → Option (PgStruct P × Bool)
  db_fetch_row db = some (pgsql_fetch_row db)

  no_rows : PgStruct P
  no_rows = record { pgres = none; maxpgrows = 0; curpgrow = 0 }

  -- What db_query makes of the answer of PQexec.
  pub query_result : C × Option P → C × PgStruct P × Bool
  query_result (next, none) = (next, no_rows, false)
  query_result (next, some p) =
      if is_empty_query (client.status p)
      then (next, no_rows, true)
      else if is_failed (client.status p)
      then (next, no_rows, false)
      else (next, record { pgres = some p; maxpgrows = client.ntuples p; curpgrow = 0 }, true)

  pub db_query : C → Bytes → C × PgStruct P × Bool
  db_query c q = query_result (client.exec c q)

  -- What db_exec makes of it: the result is true where PQexec answered anything.
  unfoldable pub exec_result : C × Option P → PgGlobals C P × Bool
  exec_result (next, none) = (record { conn = next; temp = none }, false)
  exec_result (next, some p) =
      (record { conn = next; temp = if is_failed (client.status p) then none else some p }, true)

  unfoldable pub db_exec : PgGlobals C P → Bytes → PgGlobals C P × Bool
  db_exec g q = exec_result (client.exec g.conn q)

  unfoldable pub db_changes : PgGlobals C P → Bool
  db_changes g = elim g.temp [
    | none ↦ false
    | some p ↦
        if is_command_ok (client.status p)
        then elim (client.cmd_tuples p) [ none ↦ false | some n ↦ not (n == 0) ]
        else false
  ]

  pub db_cleanup : PgGlobals C P → PgGlobals C P × PgStruct P
  db_cleanup g = (record g { temp = none }, no_rows)

  pub pg_driver : Driver (PgStruct P)
  pg_driver = record { fetch_row = db_fetch_row; col_text = db_col_text }
