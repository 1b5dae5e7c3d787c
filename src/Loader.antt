-- ===== src/Loader.antt =====
-- src/sql_api.cpp: the library of the configuration database is opened at run time, and every call of
-- it goes through a pointer. What dlopen and dlsym find is an argument. Of src/config.cpp, load_db and
-- close_db.
pub mod Symbols
use greensql_fw.Base.{
  ◌>>=◌, Bool, true, false, not, ◌||◌, if◌then◌else◌, Bytes, [], ◌∷◌, List, Option, none, some,
  equal, codes,
}
use greensql_fw.Config.Backend.{BackendDb, db_my_sql, db_pg_sql}

-- `pointers` are the names whose pointer is not null, and `is_open` whether dlclose was not called
-- behind dlopen.
pub record Loader : Type 0 where
  pub pointers : List Bytes
  pub is_open : Bool

-- The calls of dlsym, in their order.
abbrev pub symbols : List Bytes
symbols =
    codes "db_load"
    ∷ codes "db_exec"
    ∷ codes "db_col_int"
    ∷ codes "db_col_long_long"
    ∷ codes "db_col_text"
    ∷ codes "db_fetch_row"
    ∷ codes "db_escape_string"
    ∷ codes "db_query"
    ∷ codes "db_changes"
    ∷ codes "db_cleanup"
    ∷ codes "db_close"
    ∷ codes "db_error"
    ∷ []

unfoldable pub is_set : Bytes → List Bytes → Bool
is_set name [] = false
is_set name (p ∷ pointers) = equal p name || is_set name pointers

-- A pointer becomes null.
pub clear : Bytes → List Bytes → List Bytes
clear name [] = []
clear name (p ∷ pointers) =
    let rest = clear name pointers in if equal p name then rest else p ∷ rest

-- The calls of dlsym up to the first that fails.
unfoldable pub load_symbols : List Bytes → (Bytes → Bool) → List Bytes → List Bytes × Bool
load_symbols [] found pointers = (pointers, true)
load_symbols (name ∷ names) found pointers =
    let rest = load_symbols names found (name ∷ pointers) in
    if found name then rest else (clear name pointers, false)

-- db_init for "mysql" and for "pgsql": `opens` is whether dlopen finds the library of that name.
unfoldable pub db_init : (opens : Bool) → (Bytes → Bool) → Loader → Loader × Bool
db_init opens found l =
    let (pointers, result) = load_symbols symbols found l.pointers in
    if opens then (record { pointers = pointers; is_open = true }, result) else (l, false)

-- The library by the type of the database.
pub library : BackendDb → Bytes
library db_my_sql = codes "/usr/lib/libgsql-mysql.so"
library db_pg_sql = codes "/usr/lib/libgsql-pgsql.so"

-- A call of the functions db_col_int to db_error: `missing` where the pointer is null, else what the
-- library answers. A call into a library that was closed is undefined behaviour.
unfoldable pub call {ℓ} : {A : Type ℓ} → Loader → Bytes → A → A → Option A
call l name missing answer =
    if not (is_set name l.pointers) then some missing else if l.is_open then some answer else none

-- db_close keeps the pointers.
pub db_close : Loader → Option (Loader × Bool)
db_close l =
    if not (is_set (codes "db_close") l.pointers)
    then some (l, false)
    else if l.is_open
    then some (record l { is_open = false }, true)
    else none

-- GreenSQLConfig::load_db: `dlopen`, `dlsym`, and whether the library's db_load connects.
unfoldable pub connect : (connects : Bool) → Loader × Bool → Option (Loader × Bool)
connect connects (next, false) = some (next, false)
connect connects (next, true) = do
  loaded ← call next (codes "db_load") false connects
  some (next, loaded)

unfoldable pub load_db :
    BackendDb → (dlopen dlsym : Bytes → Bool) → (connects : Bool) → Loader → Option (Loader × Bool)
load_db type dlopen dlsym connects l = connect connects (db_init (dlopen (library type)) dlsym l)
