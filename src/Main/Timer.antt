-- ===== src/Main/Timer.antt =====
-- The timer of src/main.cpp: when the maps are reloaded, and how the program stops.
use greensql_fw.Base.{◌>>=◌, ℕ, suc, true, false, ◌==◌, Option, some, ◌≡◌, refl, ◌∙◌, ap, arith}
use greensql_fw.ProxyMap.{proxymap_close}
use greensql_fw.Main.{Firewall, Tables, reload, clb_timeout}

-- The timer fires once for each answer of the configuration database.
abbrev pub five_ticks : (a b c d e : Tables) → Firewall → Option Firewall
five_ticks a b c d e s = do
  s1 ← clb_timeout a s
  s2 ← clb_timeout b s1
  s3 ← clb_timeout c s2
  s4 ← clb_timeout d s3
  clb_timeout e s4

abbrev at : ℕ → Firewall → Firewall
at n s = record s { counter = n; is_armed = true }

-- A tick of a program that runs.
pub tick_counts :
    (tables : Tables) (s : Firewall)
    → s.conf.b_running ≡ true
    → (s.counter == 4) ≡ false
    → clb_timeout tables s ≡ some record s { counter = suc s.counter; is_armed = true }
unfolding clb_timeout
tick_counts tables s runs few =
    let five : (suc s.counter == 5) ≡ false = ground arith in rw (runs, five)

pub tick_reloads :
    (tables : Tables) (s : Firewall)
    → s.conf.b_running ≡ true
    → s.counter ≡ 4
    → clb_timeout tables s ≡ reload tables (record s { counter = 0; is_armed = true })
unfolding clb_timeout
tick_reloads tables s runs four =
    let five : (suc s.counter == 5) ≡ true = ground arith in rw (runs, five)

pub tick_stops :
    (tables : Tables) (s : Firewall)
    → s.conf.b_running ≡ false
    → clb_timeout tables s ≡ some record s { proxies = proxymap_close s.proxies; is_armed = false }
unfolding clb_timeout
tick_stops tables s stops = rw stops refl

-- While the program runs, the timer reloads the three maps at every fifth tick and not before, from
-- what the configuration database answers at that time alone, and starts anew.
pub five_ticks-reload :
    (a b c d e : Tables) (s : Firewall)
    → s.conf.b_running ≡ true
    → s.counter ≡ 0
    → five_ticks a b c d e s ≡ reload e (record s { counter = 0; is_armed = true })
five_ticks-reload a b c d e s runs zeroed =
    let first : clb_timeout a s ≡ some (at 1 s) =
      tick_counts a s runs (ground arith) ∙ ap (λ n. some (at (suc n) s)) zeroed in
    rw
      (
        first,
        tick_counts b (at 1 s) runs refl,
        tick_counts c (at 2 s) runs refl,
        tick_counts d (at 3 s) runs refl,
        tick_reloads e (at 4 s) runs refl,
      )
      refl
