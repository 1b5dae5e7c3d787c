-- ===== src/Config/Backend.antt =====
-- backend_db of src/config.hpp: the kinds of the configuration database.

pub data BackendDb : Type 0 where
  db_my_sql db_pg_sql : BackendDb
