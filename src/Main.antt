-- ===== src/Main.antt =====
-- src/main.cpp: the start of the program, its timer, which reloads the maps, and its end. What files,
-- libraries and the tables of the configuration database hold is an argument.

mod Tests
pub mod Life
pub mod Ready
pub mod Timer
use greensql_fw.Base.{
  ◌>>=◌, ℕ, suc, ◌-◌, Bool, true, false, not, ◌==◌, if◌then◌else◌, Bytes, [], ◌∷◌, ◌++◌, List,
  Option, none, some, length, char_at, equal, codes,
}
use greensql_fw.Alert.{GroupMap, GroupRow, agroupmap_reload}
use greensql_fw.Config as C
use greensql_fw.Config.{GreenSqlConfig}
use greensql_fw.Connection.Run.{Run, done, closes, undefined, then_run, of_option}
use greensql_fw.DbMap.{DbMap, Answers, dbmap_init, dbmap_reload, dbmap_close}
use greensql_fw.Loader.{Loader, load_db}
use greensql_fw.Patterns as P
use greensql_fw.Patterns.{SqlPatterns}
use greensql_fw.ProxyMap.{ProxyMap, ProxyRow, proxymap_init, proxymap_reload, proxymap_close}

-- What the program holds while it runs; `conf.b_running` is what Killer clears, `is_armed` whether
-- the timer is added.
pub record Firewall : Type 0 where
  pub conf : GreenSqlConfig
  pub loader : Loader
  pub mysql_patterns : SqlPatterns
  pub pgsql_patterns : SqlPatterns
  pub proxies : ProxyMap
  pub dbs : DbMap
  pub groups : GroupMap
  pub counter : ℕ
  pub is_armed : Bool

-- What the configuration database answers in one reload of the three maps.
pub record Tables : Type 0 where
  pub proxies : Option (List (ProxyRow × Bool))
  pub dbs : Answers
  pub groups : Option (List GroupRow)

-- What the start finds: the lines of a file, whether the log file and the library can be opened and a
-- connection be made, and the tables.
pub record World : Type 0 where
  pub read_file : Bytes → Option (List Bytes)
  pub opens_log : Bytes → Bool
  pub dlopen : Bytes → Bool
  pub dlsym : Bytes → Bool
  pub connects : Bool
  pub tables : Tables

-- The test of the arguments: `none` where the program only says how it is used.
pub conf_path : List Bytes → Option Bytes
conf_path [] = some (codes "./")
conf_path (name ∷ []) = some (codes "./")
conf_path (name ∷ option ∷ []) = none
conf_path (name ∷ option ∷ path ∷ rest) = if equal option (codes "-p") then some path else none

-- The empty name has no last byte: undefined behaviour.
pub fix_dir_name : Bytes → Option Bytes
fix_dir_name conf_dir =
    if length conf_dir == 0
    then none
    else some (
        if not (char_at conf_dir (length conf_dir - 1) == b'/')
        then conf_dir ++ (b'/' ∷ [])
        else conf_dir)

-- The program goes on, or ends.
pub go_on : Bool → Run (Unit {0})
go_on b = if b then done tt else closes

-- The three maps, with the timer added in front of them. Only the result of proxymap_init is looked at.
pub start_maps : Tables → GreenSqlConfig → Loader → SqlPatterns → SqlPatterns → Run Firewall
start_maps tables conf loader mysql_patterns pgsql_patterns =
    then_run
      (of_option
        (proxymap_init tables.proxies (record { proxies = []; new_proxies = []; statuses = [] })))
      (λ (proxies, opened). then_run (go_on opened) (λ u. done record {
        conf = conf;
        loader = loader;
        mysql_patterns = mysql_patterns;
        pgsql_patterns = pgsql_patterns;
        proxies = proxies;
        dbs = (dbmap_init tables.dbs (record { dbs = []; default_db = none })).0;
        groups = (agroupmap_reload tables.groups []).0;
        counter = 0;
        is_armed = true;
      }))

-- From the name of the directory on.
pub start_in : World → Bytes → Run Firewall
start_in w dir =
    let (conf, loaded) = C.load C.init (w.read_file (dir ++ codes "greensql.conf")) in
    let (mysql_patterns, has_mysql) = P.load P.clear (w.read_file (dir ++ codes "mysql.conf")) in
    let (pgsql_patterns, has_pgsql) = P.load P.clear (w.read_file (dir ++ codes "pgsql.conf")) in
    then_run (go_on loaded) (λ u. then_run (go_on (w.opens_log conf.log_file)) (λ u.
      then_run
        (of_option (
          load_db conf.s_db_type w.dlopen w.dlsym w.connects
            (record { pointers = []; is_open = false })))
        (λ (loader, connected). then_run (go_on connected) (λ u. then_run (go_on has_mysql) (λ u.
          then_run (go_on has_pgsql)
            (λ u. start_maps w.tables conf loader mysql_patterns pgsql_patterns))))))

-- The program says how it is used and ends.
pub or_usage : Option Bytes → Run Bytes
or_usage none = closes
or_usage (some path) = done path

-- main up to the event loop. `closes` stands for the end of the program.
pub main : World → List Bytes → Run Firewall
main w argv =
    then_run (or_usage (conf_path argv))
      (λ path. then_run (of_option (fix_dir_name path)) (start_in w))

-- Killer, on a signal.
pub killer : Firewall → Firewall
killer s = record s { conf = record s.conf { b_running = false } }

-- The three reloads; their results are not looked at.
pub reload : Tables → Firewall → Option Firewall
reload tables s = do
  (proxies, ret) ← proxymap_reload tables.proxies s.proxies
  some record s {
    proxies = proxies;
    dbs = (dbmap_reload tables.dbs s.dbs).0;
    groups = (agroupmap_reload tables.groups s.groups).0;
  }

-- clb_timeout, once a second while the timer is added.
pub clb_timeout : Tables → Firewall → Option Firewall
clb_timeout tables s =
    let armed = record s { counter = suc s.counter; is_armed = true } in
    let reloaded = reload tables (record armed { counter = 0 }) in
    if not s.conf.b_running
    then some record s { proxies = proxymap_close s.proxies; is_armed = false }
    else if armed.counter == 5
    then reloaded
    else some armed

-- The calls behind the event loop.
pub finish : Firewall → Firewall
finish s = record s { proxies = proxymap_close s.proxies; dbs = (dbmap_close s.dbs).0 }
