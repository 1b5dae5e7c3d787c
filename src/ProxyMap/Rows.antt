-- ===== src/ProxyMap/Rows.antt =====
-- What the rows of the table make of the proxies (src/proxymap.cpp).
use greensql_fw.Base.{
  ℕ, Bool, true, false, ◌==◌, ==_iff, if◌then◌else◌, [], ◌∷◌, List, Option, none, some, ◌≡◌, refl,
  sym, ◌∙◌, ap, arith, Bool-cases, inl, inr,
}
use greensql_fw.ProxyMap.{
  ProxyRow, GreenSql, ProxyMap, proxy_init, assign, update, find, put, new_green_sql, load_new,
  load_old, load_row, load_rows, set_db_status,
}

pub find-put {ℓ} :
    {V : Type ℓ} (k j : ℕ) (v : V) (m : List (ℕ × V))
    → find k (put j v m) ≡ (if j == k then some v else find k m)
unfolding find put
find-put k j v [] = refl
find-put k j v ((i, w) ∷ m) = ground (arith, find-put k j v m)

-- What one row, with whether its socket can be opened, makes of the proxy with its number.
pub row_proxy : ProxyRow → Bool → Option GreenSql → Option GreenSql
row_proxy row opens none =
    if opens then some (record (assign row new_green_sql) { is_listening = true }) else none
row_proxy row opens (some cls) = some (update row opens cls).0

-- What the rows for a number, in their order, make of its proxy.
pub rows_proxy : ℕ → List (ProxyRow × Bool) → Option GreenSql → Option GreenSql
rows_proxy k [] old = old
rows_proxy k ((row, opens) ∷ rows) old =
    rows_proxy k rows (if row.proxy_id == k then row_proxy row opens old else old)

find-hit : (k j : ℕ) (m : List (ℕ × GreenSql)) → (j == k) ≡ true → find k m ≡ find j m
find-hit k j m hit = ap (λ i. find i m) (sym ((==_iff j k).0 hit))

find-load_new :
    (k : ℕ) (row : ProxyRow) (opens : Bool) (m : ProxyMap)
    → find row.proxy_id m.proxies ≡ none
    → find k (load_new row opens m).proxies
      ≡ (if row.proxy_id == k then row_proxy row opens none else find k m.proxies)
unfolding load_new set_db_status proxy_init row_proxy
find-load_new k row true m e =
    find-put k row.proxy_id (record (assign row new_green_sql) { is_listening = true }) m.proxies
find-load_new k row false m e = elim (Bool-cases (row.proxy_id == k)) [
  | inl hit ↦ rw hit (find-hit k row.proxy_id m.proxies hit ∙ e)
  | inr miss ↦ rw miss
]

find-load_row :
    (k : ℕ) (row : ProxyRow) (opens : Bool) (m : ProxyMap)
    → find k (load_row row opens m).proxies
      ≡ (if row.proxy_id == k then row_proxy row opens (find k m.proxies) else find k m.proxies)
unfolding load_row load_old row_proxy set_db_status
find-load_row k row opens m = at_found (find row.proxy_id m.proxies) refl
  where
    at_found :
        (o : Option GreenSql)
        → find row.proxy_id m.proxies ≡ o
        → find k
            (elim o as (λ x. ProxyMap) [
              | none ↦ load_new row opens m
              | some cls ↦ load_old row opens cls m
            ]).proxies
          ≡ (if row.proxy_id == k then row_proxy row opens (find k m.proxies) else find k m.proxies)
    at_found none e = find-load_new k row opens m e ∙ elim (Bool-cases (row.proxy_id == k)) [
      | inl hit ↦
          rw hit (ap (row_proxy row opens) (sym (find-hit k row.proxy_id m.proxies hit ∙ e)))
      | inr miss ↦ rw miss
    ]
    at_found (some cls) e =
        find-put k row.proxy_id (update row opens cls).0 m.proxies
        ∙ elim (Bool-cases (row.proxy_id == k)) [
          | inl hit ↦
              rw hit (ap (row_proxy row opens) (sym (find-hit k row.proxy_id m.proxies hit ∙ e)))
          | inr miss ↦ rw miss
        ]

-- The loop over the rows makes of each proxy what the rows for its number, in their order, make of
-- it, from the settings that it had, and leaves every other proxy as it is.
pub find-load_rows :
    (k : ℕ) (rows : List (ProxyRow × Bool)) (m : ProxyMap)
    → find k (load_rows rows m).proxies ≡ rows_proxy k rows (find k m.proxies)
unfolding load_rows rows_proxy
find-load_rows k [] m = refl
find-load_rows k ((row, opens) ∷ rows) m =
    find-load_rows k rows (load_row row opens m)
    ∙ ap (rows_proxy k rows) (find-load_row k row opens m)
