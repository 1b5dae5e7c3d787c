-- ===== src/ProxyMap.antt =====
-- The proxies and their reload from the table of proxies: src/proxymap.cpp, and of src/greensql.cpp
-- the listening socket of a proxy. Rows of the configuration database come in as arguments, each
-- with whether the socket that it asks for can be opened. Updates of the status are the list
-- `statuses`, in their order.
pub mod Rows
pub mod Stale
pub mod Reload
mod Tests
use greensql_fw.Base.{
  ◌>>=◌, ℕ, Bool, true, false, not, ◌||◌, ◌==◌, ltb, if◌then◌else◌, Bytes, [], ◌∷◌, ◌++◌, List,
  Option, none, some, length, equal, codes,
}
use greensql_fw.Misc.{str_lowercase}
use greensql_fw.Normalization.Pattern.{DbProxyType, db_type_my_sql, db_type_pg_sql}

-- A row of `q_proxy`.
pub record ProxyRow : Type 0 where
  pub proxy_id : ℕ
  pub proxy_ip : Bytes
  pub proxy_port : ℕ
  pub backend_name : Bytes
  pub backend_ip : Bytes
  pub backend_port : ℕ
  pub db_type : Bytes

-- `is_listening` is ServerInitialized, and `connections` the size of `v_conn`.
pub record GreenSql : Type 0 where
  pub proxy_id : ℕ
  pub proxy_ip : Bytes
  pub proxy_port : ℕ
  pub backend_name : Bytes
  pub backend_ip : Bytes
  pub backend_port : ℕ
  pub type_name : Bytes
  pub db_type : DbProxyType
  pub is_listening : Bool
  pub connections : ℕ

-- `strcasecmp` with the two names.
pub proxy_type : Bytes → DbProxyType
proxy_type name =
    if equal (str_lowercase name) (codes "mysql")
    then db_type_my_sql
    else if equal (str_lowercase name) (codes "pgsql")
    then db_type_pg_sql
    else db_type_my_sql

-- The settings that ProxyInit takes over from a row.
unfoldable pub assign : ProxyRow → GreenSql → GreenSql
assign row cls = record cls {
  proxy_id = row.proxy_id;
  proxy_ip = row.proxy_ip;
  proxy_port = row.proxy_port;
  backend_name = row.backend_name;
  backend_ip = row.backend_ip;
  backend_port = row.backend_port;
  type_name = row.db_type;
  db_type = proxy_type row.db_type;
}

-- `new GreenSQL()`. What the constructor leaves open is not read before ProxyInit sets it.
abbrev new_green_sql : GreenSql
new_green_sql = record {
  proxy_id = 0;
  proxy_ip = [];
  proxy_port = 0;
  backend_name = [];
  backend_ip = [];
  backend_port = 0;
  type_name = [];
  db_type = db_type_my_sql;
  is_listening = false;
  connections = 0;
}

-- ProxyInit, where `opens` says whether the socket can be opened. The second result is that of the
-- call.
unfoldable pub proxy_init : ProxyRow → Bool → GreenSql → GreenSql × Bool
proxy_init row opens cls =
    let set = assign row cls in
    if opens then (record set { is_listening = true }, true) else (set, false)

-- CloseServer.
pub close_server : GreenSql → GreenSql
close_server cls = record cls { is_listening = false }

pub proxy_reinit : ProxyRow → Bool → GreenSql → GreenSql × Bool
proxy_reinit row opens cls = proxy_init row opens (close_server cls)

-- std::map: `find`, and `m[k] = v`.
unfoldable pub find {ℓ} : {V : Type ℓ} → ℕ → List (ℕ × V) → Option V
find k [] = none
find k ((j, v) ∷ m) = if j == k then some v else find k m

unfoldable pub put {ℓ} : {V : Type ℓ} → ℕ → V → List (ℕ × V) → List (ℕ × V)
put k v [] = (k, v) ∷ []
put k v ((j, w) ∷ m) =
    let rest = put k v m in
    if ltb k j then (k, v) ∷ (j, w) ∷ m else if j == k then (k, v) ∷ m else (j, w) ∷ rest

-- An entry of `new_proxies` is whether its pointer is not null.
pub record ProxyMap : Type 0 where
  pub proxies : List (ℕ × GreenSql)
  pub new_proxies : List (ℕ × Bool)
  pub statuses : List (ℕ × ℕ)

-- proxymap_set_db_status.
unfoldable pub set_db_status : ℕ → ℕ → ProxyMap → ProxyMap
set_db_status proxy_id status m = record m { statuses = m.statuses ++ ((proxy_id, status) ∷ []) }

-- A row for a proxy that is not in memory. A proxy without a socket is closed and deleted, and Close
-- writes its status again.
unfoldable pub load_new : ProxyRow → Bool → ProxyMap → ProxyMap
load_new row opens m =
    let (cls, ret) = proxy_init row opens new_green_sql in
    if ret
    then record (set_db_status row.proxy_id 1 m) {
      proxies = put row.proxy_id cls m.proxies;
      new_proxies = put row.proxy_id true m.new_proxies;
    }
    else set_db_status cls.proxy_id 0 (set_db_status row.proxy_id 2 m)

-- Whether a row asks for another socket than that of the proxy.
pub is_moved : ProxyRow → GreenSql → Bool
is_moved row cls =
    not (equal cls.proxy_ip row.proxy_ip)
    || not (cls.proxy_port == row.proxy_port)
    || not (equal cls.type_name row.db_type)

-- What a row makes of a proxy in memory, and the status that is written. The assignment of the
-- backend changes nothing where it is the same.
pub update : ProxyRow → Bool → GreenSql → GreenSql × ℕ
update row opens cls =
    let (again, ret) = proxy_reinit row opens cls in
    if is_moved row cls then (again, if ret then 1 else 2) else (
      record cls {
        backend_name = row.backend_name;
        backend_ip = row.backend_ip;
        backend_port = row.backend_port;
      },
      1,
    )

pub load_old : ProxyRow → Bool → GreenSql → ProxyMap → ProxyMap
load_old row opens cls m =
    let (next, status) = update row opens cls in
    record (set_db_status row.proxy_id status m) {
      proxies = put row.proxy_id next m.proxies;
      new_proxies = put row.proxy_id true m.new_proxies;
    }

unfoldable pub load_row : ProxyRow → Bool → ProxyMap → ProxyMap
load_row row opens m = elim (find row.proxy_id m.proxies) [
  | none ↦ load_new row opens m
  | some cls ↦ load_old row opens cls m
]

-- The loop over the rows.
unfoldable pub load_rows : List (ProxyRow × Bool) → ProxyMap → ProxyMap
load_rows [] m = m
load_rows ((row, opens) ∷ rows) m = load_rows rows (load_row row opens m)

-- `new_proxies[k] != NULL`.
pub entered : ℕ → List (ℕ × Bool) → Bool
entered k new_proxies = elim (find k new_proxies) [ none ↦ false | some b ↦ b ]

-- The loop over the proxies that are left, to find those without a row. Looking for one enters a
-- null pointer in `new_proxies`. `erase(itr)` makes the iterator invalid that the loop goes on with:
-- undefined behaviour.
unfoldable pub remove_loop : List (ℕ × GreenSql) → ProxyMap → Option ProxyMap
remove_loop [] m = some m
remove_loop ((proxy_id, cls) ∷ left) m =
    let closed = record m {
      new_proxies = put proxy_id false m.new_proxies;
      proxies = put proxy_id (close_server cls) m.proxies;
    } in
    let kept = remove_loop left m in
    let rest = remove_loop left closed in
    if length m.new_proxies == length m.proxies
    then some m
    else if entered proxy_id m.new_proxies
    then kept
    else if cls.connections == 0
    then none
    else rest

-- proxymap_reload; a query that fails has no rows. `new_proxies` is empty at the start.
unfoldable pub proxymap_reload :
    Option (List (ProxyRow × Bool)) → ProxyMap → Option (ProxyMap × Bool)
proxymap_reload none m = some (m, false)
proxymap_reload (some rows) m =
    let loaded = load_rows rows (record m { new_proxies = [] }) in
    elim (remove_loop loaded.proxies loaded) [ none ↦ none | some next ↦ some (next, true) ]

-- proxymap_init: its result is whether there is a proxy, whatever that of the reload.
unfoldable pub proxymap_init : Option (List (ProxyRow × Bool)) → ProxyMap → Option (ProxyMap × Bool)
proxymap_init rows m = do
  (next, ret) ← proxymap_reload rows m
  some (next, not (length next.proxies == 0))

-- proxymap_close: Close of every proxy, which writes its status.
pub close_all : List (ℕ × GreenSql) → List (ℕ × ℕ)
close_all [] = []
close_all ((k, cls) ∷ left) = (cls.proxy_id, 0) ∷ close_all left

unfoldable pub proxymap_close : ProxyMap → ProxyMap
proxymap_close m = record m { proxies = []; statuses = m.statuses ++ close_all m.proxies }
