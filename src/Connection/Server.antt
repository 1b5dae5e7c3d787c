-- ===== src/Connection/Server.antt =====
-- What the connections of src/mysql/mysql_con.cpp and src/pgsql/pgsql_con.cpp look at outside of
-- themselves.
use greensql_fw.Base.{ℕ}
use greensql_fw.DbMap.{DbMap}
use greensql_fw.Connection.{Context}

-- The `db` of the context is that of the connection.
pub record Server : Type 0 where
  pub context : Context
  pub map : DbMap
  pub proxy_id : ℕ
