-- ===== src/Main/Life.antt =====
-- The states of the program from the start of the event loop on (src/main.cpp): what its timer and its
-- signals lead to.
use greensql_fw.Base.{
  ◌<◌, true, false, ◌==◌, Bytes, List, some, length, ◌≡◌, ◌⊎◌, inl, inr, refl, ◌∙◌, arith,
  Bool-cases, Option-cases, some-eq,
}
use greensql_fw.Alert.{GroupMap}
use greensql_fw.Connection.Run.{done}
use greensql_fw.DbMap.{DbMap}
use greensql_fw.ProxyMap.{ProxyMap, proxymap_close, proxymap_reload}
use greensql_fw.Main.{Firewall, Tables, World, main, killer, reload, clb_timeout}
use greensql_fw.Main.Ready.{main-IsReady}
use greensql_fw.Main.Timer.{tick_counts, tick_reloads, tick_stops}

-- The states that a run of the program has: at the start of the event loop, behind a tick of the timer
-- while it is added, behind a signal, and behind the events of connections, which make no proxy.
pub data Life (w : World) (argv : List Bytes) : Firewall → Type 0 where
  started : (s : Firewall) → main w argv ≡ done s → Life w argv s
  ticked :
      (tables : Tables) (s s' : Firewall)
      → Life w argv s
      → s.is_armed ≡ true
      → clb_timeout tables s ≡ some s'
      → Life w argv s'
  killed : (s : Firewall) → Life w argv s → Life w argv (killer s)
  served :
      (s : Firewall) (proxies : ProxyMap) (dbs : DbMap) (groups : GroupMap)
      → Life w argv s
      → length proxies.proxies ≡ length s.proxies.proxies
      → Life w argv (record s { proxies = proxies; dbs = dbs; groups = groups })

-- The timer counts up to 5, and the program has its timer, or it is told to stop and has no proxy.
abbrev pub IsAlive : Firewall → Type 0
IsAlive s =
    (s.counter < 5)
    × ((s.is_armed ≡ true) ⊎ ((s.conf.b_running ≡ false) × (length s.proxies.proxies ≡ 0)))

reload-keeps :
    (tables : Tables) (s s' : Firewall)
    → reload tables s ≡ some s'
    → (s'.counter ≡ s.counter) × (s'.is_armed ≡ s.is_armed)
unfolding reload
reload-keeps tables s s' h = elim (Option-cases (proxymap_reload tables.proxies s.proxies)) [
  | inl bad ↦ absurd (let e = (rw bad at h) in ground arith)
  | inr ((p, ret), good) ↦ (let e = (rw good at h) in ground arith)
]

ticked-IsAlive :
    (tables : Tables) (s s' : Firewall)
    → IsAlive s
    → s.is_armed ≡ true
    → clb_timeout tables s ≡ some s'
    → IsAlive s'
unfolding proxymap_close
ticked-IsAlive tables s s' alive armed h = elim (Bool-cases s.conf.b_running) [
  | inr stops ↦ rw (← some-eq (rw (tick_stops tables s stops) at h)) (alive.0, inr (stops, refl))
  | inl runs ↦ elim (Bool-cases (s.counter == 4)) [
    | inr few ↦
        rw (← some-eq (rw (tick_counts tables s runs few) at h)) (ground (arith, alive.0), inl refl)
    | inl four ↦
        let (counts, is_armed) =
          reload-keeps tables (record s { counter = 0; is_armed = true }) s'
            (rw (tick_reloads tables s runs (ground (arith, four))) at h) in
        (omega (arith, counts), inl is_armed)
  ]
]

-- From the start of the event loop on, whatever the configuration database answers and whatever comes
-- between: the count of the ticks stays below 5, and either the timer is added, or the program was told
-- to stop and holds no proxy. So it neither stops by itself nor forgets to stop.
pub Life-IsAlive : (w : World) (argv : List Bytes) (s : Firewall) → Life w argv s → IsAlive s
unfolding killer
Life-IsAlive w argv s (started _ h) =
    let (made, log, (listens, runs, armed, zeroed)) = main-IsReady w argv s h in
    (omega (arith, zeroed), inl armed)
Life-IsAlive w argv s' (ticked tables s _ life armed h) =
    ticked-IsAlive tables s s' (Life-IsAlive w argv s life) armed h
Life-IsAlive w argv s' (killed s life) = elim (Life-IsAlive w argv s life).1 [
  | inl armed ↦ ((Life-IsAlive w argv s life).0, inl armed)
  | inr (stops, closed) ↦ ((Life-IsAlive w argv s life).0, inr (refl, closed))
]
Life-IsAlive w argv s' (served s proxies dbs groups life same) =
    elim (Life-IsAlive w argv s life).1 [
      | inl armed ↦ ((Life-IsAlive w argv s life).0, inl armed)
      | inr (stops, closed) ↦ ((Life-IsAlive w argv s life).0, inr (stops, same ∙ closed))
    ]
