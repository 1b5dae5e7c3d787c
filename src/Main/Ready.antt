-- ===== src/Main/Ready.antt =====
-- What holds when the event loop of src/main.cpp begins.
use greensql_fw.Base.{
  Bool, true, false, not, ◌==◌, Bytes, [], ◌++◌, List, Option, none, some, codes, length, ◌≡◌, refl,
  sym, ◌∙◌, ap, arith, Option-cases, inl, inr,
}
use greensql_fw.Config as C
use greensql_fw.Config.{GreenSqlConfig}
use greensql_fw.Config.Load.{load-b_running}
use greensql_fw.Connection.Run.{done, then_run, of_option, run-done, done-eq}
use greensql_fw.Loader.{Loader, load_db}
use greensql_fw.Loader.Symbols.{load_db-connects}
use greensql_fw.Patterns as P
use greensql_fw.Patterns.{SqlPatterns}
use greensql_fw.ProxyMap.{ProxyMap, ProxyRow, proxymap_init, proxymap_reload}
use greensql_fw.Main.{
  Firewall, Tables, World, conf_path, fix_dir_name, go_on, start_maps, start_in, main, or_usage,
}

go_on-done : (b : Bool) (u : Unit {0}) → go_on b ≡ done u → b ≡ true
unfolding go_on
go_on-done b u h = ground arith

of_option-done : {A : Type 0} (o : Option A) (a : A) → of_option o ≡ done a → o ≡ some a
of_option-done none a h = absurd (ground arith)
of_option-done (some b) a h = ap some (done-eq h)

-- A proxy is there, the timer is added and counts from 0.
abbrev pub IsReady : Firewall → Type 0
IsReady s =
    ((length s.proxies.proxies == 0) ≡ false)
    × (s.conf.b_running ≡ true)
    × (s.is_armed ≡ true)
    × (s.counter ≡ 0)

proxymap_init-opened :
    (rows : Option (List (ProxyRow × Bool))) (m next : ProxyMap) (opened : Bool)
    → proxymap_init rows m ≡ some (next, opened)
    → opened ≡ not (length next.proxies == 0)
unfolding proxymap_init
proxymap_init-opened rows m next opened h = elim (Option-cases (proxymap_reload rows m)) [
  | inl bad ↦ absurd (let e = (rw bad at h) in ground arith)
  | inr ((p, ret), good) ↦
      let left : ProxyMap × Bool = (p, not (length p.proxies == 0)) in
      let right : ProxyMap × Bool = (next, opened) in
      let both : Option.some left ≡ some right = (rw good at h) in
      let e : left ≡ right = cc in
      let same : p ≡ next = ap (λ q. q.0) e in
      sym (ap (λ q. q.1) e) ∙ ap (λ q. not (length (ProxyMap.proxies q) == 0)) same
]

b_running-loaded :
    (file : Option (List Bytes))
    → (C.load C.init file).1 ≡ true
    → (C.load C.init file).0.b_running ≡ true
unfolding C.load
b_running-loaded none h = absurd (ground arith)
b_running-loaded (some lines) h = load-b_running C.init lines

abbrev IsStarted : GreenSqlConfig → Firewall → Type 0
IsStarted conf s =
    ((length s.proxies.proxies == 0) ≡ false)
    × (s.conf ≡ conf)
    × (s.is_armed ≡ true)
    × (s.counter ≡ 0)

start_maps-IsStarted :
    (tables : Tables) (conf : GreenSqlConfig) (loader : Loader)
    (mysql_patterns pgsql_patterns : SqlPatterns) (s : Firewall)
    → start_maps tables conf loader mysql_patterns pgsql_patterns ≡ done s
    → IsStarted conf s
unfolding start_maps
start_maps-IsStarted tables conf loader mysql_patterns pgsql_patterns s h =
    let ((proxies, opened), some_init, h1) =
      run-done
        (of_option
          (proxymap_init tables.proxies (record { proxies = []; new_proxies = []; statuses = [] })))
        _ s h in
    let (u, went_on, h2) = run-done (go_on opened) _ s h1 in
    let is_open = go_on-done opened u went_on in
    let init =
      proxymap_init-opened tables.proxies (record { proxies = []; new_proxies = []; statuses = [] })
        proxies opened (of_option-done _ (proxies, opened) some_init) in
    rw (← done-eq h2) (ground arith, refl, refl, refl)

start_in-IsStarted :
    (w : World) (dir : Bytes) (s : Firewall)
    → start_in w dir ≡ done s
    → (w.connects ≡ true) × (w.opens_log s.conf.log_file ≡ true) × IsReady s
unfolding start_in
start_in-IsStarted w dir s h =
    let file = w.read_file (dir ++ codes "greensql.conf") in
    let conf = (C.load C.init file).0 in
    let none_loaded : Loader = record { pointers = []; is_open = false } in
    let (u, loaded, h1) = run-done (go_on (C.load C.init file).1) _ s h in
    let (v, log, h2) = run-done (go_on (w.opens_log conf.log_file)) _ s h1 in
    let ((loader, connected), db, h3) =
      run-done (of_option (load_db conf.s_db_type w.dlopen w.dlsym w.connects none_loaded)) _ s
        h2 in
    let (u3, c, h4) = run-done (go_on connected) _ s h3 in
    let (u4, m, h5) =
      run-done (go_on (P.load P.clear (w.read_file (dir ++ codes "mysql.conf"))).1) _ s h4 in
    let (u5, g, h6) =
      run-done (go_on (P.load P.clear (w.read_file (dir ++ codes "pgsql.conf"))).1) _ s h5 in
    let (listens, same, armed, zeroed) = start_maps-IsStarted _ conf loader _ _ s h6 in
    let is_connected = go_on-done connected u3 c in
    let made = rw is_connected at (of_option-done _ (loader, connected) db) in
    (
      load_db-connects conf.s_db_type w.dlopen w.dlsym w.connects none_loaded loader made,
      ap (λ c. w.opens_log c.log_file) same ∙ go_on-done _ v log,
      (
        listens,
        ap (λ c. c.b_running) same ∙ b_running-loaded file (go_on-done _ u loaded),
        armed,
        zeroed,
      ),
    )

-- When the event loop begins, the configuration database is connected, the log file is open, the program
-- is set to run, at least one proxy is in memory, and the timer is added and counts from 0: every other
-- end of the start ends the program.
pub main-IsReady :
    (w : World) (argv : List Bytes) (s : Firewall)
    → main w argv ≡ done s
    → (w.connects ≡ true) × (w.opens_log s.conf.log_file ≡ true) × IsReady s
unfolding main
main-IsReady w argv s h =
    let (path, known, e) =
      run-done (or_usage (conf_path argv)) (λ p. then_run (of_option (fix_dir_name p)) (start_in w))
        s h in
    let (dir, fixed, started) = run-done (of_option (fix_dir_name path)) (start_in w) s e in
    start_in-IsStarted w dir s started
