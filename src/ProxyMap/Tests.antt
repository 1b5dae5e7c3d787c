-- ===== src/ProxyMap/Tests.antt =====
-- A small table of proxies for src/proxymap.cpp.
use greensql_fw.Base
use greensql_fw.Base.{ℕ, true, false, Bytes, [], ◌∷◌, ◌++◌, List, none, some, codes, ◌≡◌, refl}
use greensql_fw.Normalization.Pattern.{db_type_my_sql}
use greensql_fw.ProxyMap.{
  ProxyRow, GreenSql, ProxyMap, find, put, entered, load_rows, load_row, load_old, update, is_moved,
  proxy_reinit, proxy_init, assign, close_server, set_db_status, proxymap_reload,
}
use greensql_fw.ProxyMap.Rows.{rows_proxy}
use greensql_fw.ProxyMap.Reload.{all_kept, loaded, find-proxymap_reload}
use greensql_fw.ProxyMap.Stale.{load_rows-stale}

abbrev shop : GreenSql
shop = record {
  proxy_id = 1;
  proxy_ip = codes "127.0.0.1";
  proxy_port = 3305;
  backend_name = codes "db";
  backend_ip = codes "10.0.0.2";
  backend_port = 3306;
  type_name = codes "mysql";
  db_type = db_type_my_sql;
  is_listening = true;
  connections = 0;
}

-- The row of `shop`, at another port.
abbrev moved_row : ProxyRow
moved_row = record {
  proxy_id = 1;
  proxy_ip = codes "127.0.0.1";
  proxy_port = 3307;
  backend_name = codes "db";
  backend_ip = codes "10.0.0.2";
  backend_port = 3306;
  db_type = codes "mysql";
}

abbrev one : ProxyMap
one = record { proxies = (1, shop) ∷ []; new_proxies = []; statuses = [] }

load_rows-stale_example :
    let failed = load_rows ((moved_row, false) ∷ []) one in
    let later = load_rows ((moved_row, true) ∷ []) failed in
    (failed.statuses ≡ [] ++ ((1, 2) ∷ []))
    × (later.statuses ≡ failed.statuses ++ ((1, 1) ∷ []))
    × (next : GreenSql) × (find 1 later.proxies ≡ some next)
    × (next.is_listening ≡ false)
unfolding find is_moved Base.equal
load_rows-stale_example = load_rows-stale one moved_row shop true refl refl

-- A proxy without a row, which a client is still connected to.
abbrev two : ProxyMap
two = record {
  proxies = (1, shop) ∷ (2, record shop { proxy_id = 2; proxy_port = 3310; connections = 1 }) ∷ [];
  new_proxies = [];
  statuses = [];
}

find-proxymap_reload_example :
    (next : ProxyMap) × (proxymap_reload (some ((moved_row, true) ∷ [])) two ≡ some (next, true))
    × (find 1 next.proxies ≡ rows_proxy 1 ((moved_row, true) ∷ []) (find 1 two.proxies))
    × (next.statuses ≡ (loaded ((moved_row, true) ∷ []) two).statuses)
unfolding find put entered all_kept load_rows load_row load_old update is_moved proxy_reinit
    proxy_init assign close_server set_db_status Base.equal
find-proxymap_reload_example = find-proxymap_reload 1 ((moved_row, true) ∷ []) two refl refl
