-- ===== src/Main/Tests.antt =====
-- A start with one proxy, the timer, and a signal, of src/main.cpp.
use greensql_fw.Base
use greensql_fw.Base.{
  ◌>>=◌, ℕ, ◌<◌, Bool, true, false, [], ◌∷◌, List, Option, none, some, codes, length, ◌≡◌, ◌⊎◌, inl,
  inr, refl,
}
use greensql_fw.Alert.{agroupmap_reload}
use greensql_fw.Config as C
use greensql_fw.Connection.Run.{done}
use greensql_fw.DbMap.{dbmap_init}
use greensql_fw.Loader as L
use greensql_fw.Patterns as P
use greensql_fw.ProxyMap as M
use greensql_fw.ProxyMap.{ProxyRow, proxymap_init, proxymap_close}
use greensql_fw.Main.{
  Firewall, Tables, World, conf_path, fix_dir_name, go_on, start_maps, start_in, or_usage, main,
  killer, reload, clb_timeout,
}
use greensql_fw.Main.Life.{Life, started, killed, ticked, IsAlive, Life-IsAlive}
use greensql_fw.Main.Ready.{IsReady, main-IsReady}
use greensql_fw.Main.Timer.{five_ticks, five_ticks-reload}

abbrev shop : ProxyRow
shop = record {
  proxy_id = 1;
  proxy_ip = codes "127.0.0.1";
  proxy_port = 3305;
  backend_name = codes "shop";
  backend_ip = codes "127.0.0.1";
  backend_port = 3306;
  db_type = codes "mysql";
}

abbrev tables : Tables
tables = record {
  proxies = some ((shop, true) ∷ []);
  dbs = record {
    learning3 = false;
    learning7 = false;
    rows = none;
    defaults = none;
    whitelists = λ proxy_id name. none;
  };
  groups = none;
}

-- Every file is there and empty.
abbrev world : World
world = record {
  read_file = λ path. some [];
  opens_log = λ path. true;
  dlopen = λ path. true;
  dlsym = λ name. true;
  connects = true;
  tables = tables;
}

-- The state that the event loop begins with.
abbrev ready : Firewall
ready = record {
  conf = C.init;
  loader = record { pointers = (L.load_symbols L.symbols (λ name. true) []).0; is_open = true };
  mysql_patterns = (P.load P.clear (some [])).0;
  pgsql_patterns = (P.load P.clear (some [])).0;
  proxies =
      M.load_rows ((shop, true) ∷ []) (record { proxies = []; new_proxies = []; statuses = [] });
  dbs = (dbmap_init tables.dbs (record { dbs = []; default_db = none })).0;
  groups = (agroupmap_reload none []).0;
  counter = 0;
  is_armed = true;
}

main-ready : main world [] ≡ done ready
unfolding main start_in start_maps or_usage conf_path fix_dir_name go_on C.load P.load L.load_db
    L.connect L.db_init L.load_symbols L.is_set L.call proxymap_init M.proxymap_reload M.load_rows
    M.load_row M.load_new M.proxy_init M.set_db_status M.find M.put M.remove_loop M.assign
    Base.equal
main-ready = refl

main-IsReady_example :
    (world.connects ≡ true) × (world.opens_log ready.conf.log_file ≡ true) × IsReady ready
main-IsReady_example = main-IsReady world [] ready main-ready

five_ticks-reload_example :
    five_ticks tables tables tables tables tables ready
    ≡ reload tables (record ready { counter = 0; is_armed = true })
unfolding C.init
five_ticks-reload_example = five_ticks-reload tables tables tables tables tables ready refl refl

-- A signal, and the tick behind it.
abbrev stopped : Firewall
stopped = record (killer ready) { proxies = proxymap_close ready.proxies; is_armed = false }

stopped-Life : Life world [] stopped
unfolding killer clb_timeout
stopped-Life =
    ticked tables (killer ready) stopped (killed ready (started ready main-ready)) refl refl

Life-IsAlive_example : IsAlive stopped
Life-IsAlive_example = Life-IsAlive world [] stopped stopped-Life
