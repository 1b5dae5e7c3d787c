-- ===== src/ProxyMap/Reload.antt =====
-- A whole reload of the proxies (src/proxymap.cpp).
use greensql_fw.Base.{
  ℕ, Bool, true, false, not, ◌&&◌, ◌||◌, ◌==◌, ==_iff, [], ◌∷◌, List, Option, none, some, length,
  ◌≡◌, refl, sym, ◌∙◌, ap, arith, Bool-cases, inl, inr,
}
use greensql_fw.ProxyMap.{
  ProxyRow, GreenSql, ProxyMap, close_server, find, put, entered, load_rows, remove_loop,
  proxymap_reload,
}
use greensql_fw.ProxyMap.Rows.{find-put, find-load_rows, rows_proxy}

-- Each of the proxies has a row or connections.
unfoldable pub all_kept : List (ℕ × GreenSql) → List (ℕ × Bool) → Bool
all_kept [] new_proxies = true
all_kept ((k, cls) ∷ left) new_proxies =
    (entered k new_proxies || not (cls.connections == 0)) && all_kept left new_proxies

entered-put :
    (k j : ℕ) (n : List (ℕ × Bool)) → entered j n ≡ false → entered k (put j false n) ≡ entered k n
unfolding entered
entered-put k j n h =
    ap (λ o. elim o as (λ x. Bool) [ none ↦ false | some b ↦ b ]) (find-put k j false n)
    ∙ elim (Bool-cases (j == k)) [
      | inl hit ↦ rw hit (sym h ∙ ap (λ i. entered i n) ((==_iff j k).0 hit))
      | inr miss ↦ rw miss
    ]

all_kept-put :
    (j : ℕ) (left : List (ℕ × GreenSql)) (n : List (ℕ × Bool))
    → entered j n ≡ false
    → all_kept left (put j false n) ≡ all_kept left n
unfolding all_kept
all_kept-put j [] n h = refl
all_kept-put j ((k, cls) ∷ left) n h = rw (entered-put k j n h, all_kept-put j left n h)

find-closed :
    (k j : ℕ) (cls : GreenSql) (m : ProxyMap)
    → entered j m.new_proxies ≡ false
    → entered k m.new_proxies ≡ true
    → find k (put j (close_server cls) m.proxies) ≡ find k m.proxies
find-closed k j cls m h e = find-put k j (close_server cls) m.proxies ∙ elim (Bool-cases (j == k)) [
  | inl hit ↦
      let same = ap (λ i. entered i m.new_proxies) ((==_iff j k).0 hit) in
      absurd (let no = sym h ∙ same ∙ e in ground arith)
  | inr miss ↦ rw miss
]

-- Without a proxy to delete the loop returns, and does not touch a proxy with a row.
remove_loop-entered :
    (left : List (ℕ × GreenSql)) (m : ProxyMap) (k : ℕ)
    → all_kept left m.new_proxies ≡ true
    → entered k m.new_proxies ≡ true
    → (next : ProxyMap) × (remove_loop left m ≡ some next)
      × (find k next.proxies ≡ find k m.proxies)
      × (next.statuses ≡ m.statuses)
unfolding remove_loop all_kept
remove_loop-entered [] m k a e = (m, refl, refl, refl)
remove_loop-entered ((j, cls) ∷ left) m k a e =
    elim (Bool-cases (length m.new_proxies == length m.proxies)) [
      | inl equal_sizes ↦ (m, rw equal_sizes, refl, refl)
      | inr differ ↦ elim (Bool-cases (entered j m.new_proxies)) [
        | inl has ↦
            let (next, r, f, s) = remove_loop-entered left m k (ground (arith, a, has)) e in
            (next, rw (differ, has) r, f, s)
        | inr hasnt ↦
            let closed : ProxyMap = record m {
              new_proxies = put j false m.new_proxies;
              proxies = put j (close_server cls) m.proxies;
            } in
            let busy : (cls.connections == 0) ≡ false = ground (arith, a, hasnt) in
            let rest : all_kept left m.new_proxies ≡ true = ground (arith, a, hasnt) in
            let (next, r, f, s) =
              remove_loop-entered left closed k (all_kept-put j left m.new_proxies hasnt ∙ rest)
                (entered-put k j m.new_proxies hasnt ∙ e) in
            (next, rw (differ, hasnt, busy) r, f ∙ find-closed k j cls m hasnt e, s)
      ]
    ]

-- What is loaded before the removed proxies are looked for.
abbrev pub loaded : List (ProxyRow × Bool) → ProxyMap → ProxyMap
loaded rows m = load_rows rows (record m { new_proxies = [] })

-- A reload in which every proxy in memory has a row or connections returns. A proxy that a row was
-- loaded for is afterwards what the rows for its number, in their order, make of it; what the
-- reload does to proxies without a row leaves it alone, and the statuses as the rows wrote them.
pub find-proxymap_reload :
    (k : ℕ) (rows : List (ProxyRow × Bool)) (m : ProxyMap)
    → all_kept (loaded rows m).proxies (loaded rows m).new_proxies ≡ true
    → entered k (loaded rows m).new_proxies ≡ true
    → (next : ProxyMap) × (proxymap_reload (some rows) m ≡ some (next, true))
      × (find k next.proxies ≡ rows_proxy k rows (find k m.proxies))
      × (next.statuses ≡ (loaded rows m).statuses)
unfolding proxymap_reload
find-proxymap_reload k rows m a e =
    let (next, r, f, s) = remove_loop-entered (loaded rows m).proxies (loaded rows m) k a e in
    (
      next,
      ap (λ o. elim o as (λ x. Option (ProxyMap × Bool)) [ none ↦ none | some n ↦ some (n, true) ])
          r,
      f ∙ find-load_rows k rows (record m { new_proxies = [] }),
      s,
    )
