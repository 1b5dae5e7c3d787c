-- ===== src/DbMap.antt =====
-- src/dbmap.cpp: the permissions of every database, by proxy and name. Rows of the configuration
-- database come in as arguments; `none` is a query that failed.
pub mod Keys
pub mod Reload
mod Tests
use greensql_fw.Base.{
  ℕ, zero, suc, ◌*◌, Bool, true, false, not, ◌&&◌, ◌||◌, ltb, ◌==◌, if◌then◌else◌, Bytes, [], ◌∷◌,
  ◌++◌, List, Option, none, some, length, equal, codes,
}
use greensql_fw.Base.Int.{ℤ, pos}
use greensql_fw.Misc.{itoa, digits_text}
use greensql_fw.Permissions.{DbPermObj, new_perm_obj, init, load_whitelist, find}

pub record DbMap : Type 0 where
  pub dbs : List (Bytes × DbPermObj)
  pub default_db : Option DbPermObj

-- A row of `q_db` or `q_default_db`. The type is that of the proxy, or `sysdbtype`.
pub record DbRow : Type 0 where
  pub proxy_id : ℕ
  pub db_name : Bytes
  pub perms : ℕ
  pub perms2 : ℕ
  pub status : ℕ
  pub db_type : Bytes

-- The whitelist table, by proxy and database name.
abbrev pub WhitelistTable : Type 0
WhitelistTable = ℕ → Bytes → Option (List (Bytes × ℤ))

-- `itoa(proxy_id) + "," + db_name`.
pub db_key : ℕ → Bytes → Bytes
unfolding digits_text
db_key proxy_id db_name = itoa (pos proxy_id) ++ (b',' ∷ db_name)

-- The second object is that of the key "empty_mysql", "default_mysql" or "default_pgsql".
fallback_key : Bytes → Bytes → Bytes → Bytes
fallback_key key db_name db_type =
    if equal db_type (codes "mysql")
    then (if length db_name == 0 then codes "empty_mysql" else codes "default_mysql")
    else if equal db_type (codes "pgsql")
    then codes "default_pgsql"
    else key

or_else : Option DbPermObj → Option DbPermObj → Option DbPermObj
or_else none d = d
or_else (some o) d = some o

unfoldable pub dbmap_default : DbMap → ℕ → Bytes → Option DbPermObj
unfolding or_else
dbmap_default m proxy_id db_type =
    let key =
      if equal db_type (codes "mysql")
      then codes "empty_mysql"
      else if equal db_type (codes "pgsql")
      then codes "default_pgsql"
      else [] in
    or_else (find key m.dbs) m.default_db

unfoldable pub dbmap_find : DbMap → ℕ → Bytes → Bytes → Option DbPermObj
unfolding or_else fallback_key db_key
dbmap_find m proxy_id db_name db_type =
    let key = db_key proxy_id db_name in
    or_else (find key m.dbs) (or_else (find (fallback_key key db_name db_type) m.dbs) m.default_db)

-- `dbs[key] = db`, and the same for an object that is changed through its pointer.
pub put : Bytes → DbPermObj → List (Bytes × DbPermObj) → List (Bytes × DbPermObj)
put k o [] = (k, o) ∷ []
put k o ((j, p) ∷ m) = if equal j k then (j, o) ∷ m else (j, p) ∷ put k o m

-- Init and LoadWhitelist on the object of the key, or on a new one.
pub refresh : WhitelistTable → Option DbPermObj → Bytes → DbRow → DbPermObj
unfolding init load_whitelist
refresh table old db_name row =
    let base : DbPermObj = elim old [ none ↦ new_perm_obj | some o ↦ o ] in
    let settled = init base db_name row.proxy_id row.perms row.perms2 row.status in
    (load_whitelist settled (table row.proxy_id db_name)).0

abbrev pub row_key : DbRow → Bytes
row_key row = db_key row.proxy_id row.db_name

pub load_dbs : WhitelistTable → List DbRow → List (Bytes × DbPermObj) → List (Bytes × DbPermObj)
load_dbs table [] m = m
load_dbs table (row ∷ rows) m =
    load_dbs table rows (put (row_key row) (refresh table (find (row_key row) m) row.db_name row) m)

abbrev default_name : DbRow → Bytes
default_name row = if equal row.db_type (codes "empty_mysql") then [] else row.db_type

pub load_defaults :
    WhitelistTable → List DbRow → List (Bytes × DbPermObj) → List (Bytes × DbPermObj)
load_defaults table [] m = m
load_defaults table (row ∷ rows) m =
    load_defaults table rows
      (put row.db_type (refresh table (find row.db_type m) (default_name row) row) m)

-- What the configuration database answers: whether the two updates succeed, and the rows of the two
-- queries.
pub record Answers : Type 0 where
  pub learning3 : Bool
  pub learning7 : Bool
  pub rows : Option (List DbRow)
  pub defaults : Option (List DbRow)
  pub whitelists : WhitelistTable

reload_defaults : Answers → DbMap → Option (List DbRow) → DbMap × Bool
reload_defaults answers m none = (m, false)
reload_defaults answers m (some rows) =
    (record m { dbs = load_defaults answers.whitelists rows m.dbs }, true)

reload_rows : Answers → DbMap → Option (List DbRow) → DbMap × Bool
unfolding reload_defaults
reload_rows answers m none = (m, false)
reload_rows answers m (some rows) =
    reload_defaults answers (record m { dbs = load_dbs answers.whitelists rows m.dbs })
      answers.defaults

unfoldable pub dbmap_reload : Answers → DbMap → DbMap × Bool
unfolding reload_rows
dbmap_reload answers m =
    if not answers.learning3
    then (m, false)
    else if not answers.learning7
    then (m, false)
    else reload_rows answers m answers.rows

-- dbmap_init. The result of the reload is not looked at.
unfoldable pub dbmap_init : Answers → DbMap → DbMap × Bool
unfolding dbmap_reload
dbmap_init answers m =
    let m' = (dbmap_reload answers (record m { default_db = some new_perm_obj })).0 in
    (m', not (length m'.dbs == 0))

unfoldable pub dbmap_close : DbMap → DbMap × Bool
dbmap_close m = (record { dbs = []; default_db = none }, true)
