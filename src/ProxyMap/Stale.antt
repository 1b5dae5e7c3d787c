-- ===== src/ProxyMap/Stale.antt =====
-- A proxy that could not open its socket, over two reloads (src/proxymap.cpp).
use greensql_fw.Base.{
  ℕ, Bool, true, false, ◌==◌, Bytes, [], ◌∷◌, ◌++◌, none, some, equal, equal_iff, ◌≡◌, refl, ◌∙◌,
  ap, arith,
}
use greensql_fw.ProxyMap.{
  ProxyRow, GreenSql, ProxyMap, proxy_init, proxy_reinit, close_server, assign, update, is_moved,
  find, load_new, load_old, load_row, load_rows, set_db_status,
}
use greensql_fw.ProxyMap.Rows.{find-put}

-- What a failed ProxyReInit leaves.
abbrev pub stale : ProxyRow → GreenSql → GreenSql
stale row cls = assign row (record cls { is_listening = false })

update-moved :
    (row : ProxyRow) (cls : GreenSql)
    → is_moved row cls ≡ true
    → update row false cls ≡ (stale row cls, 2)
unfolding update proxy_reinit proxy_init close_server
update-moved row cls moved = rw moved

equal-same : (s : Bytes) → equal s s ≡ true
equal-same s = (equal_iff s s).1 refl

-- The settings of the row are taken over, so the next reload finds nothing to do.
update-stale :
    (row : ProxyRow) (opens : Bool) (cls : GreenSql)
    → update row opens (stale row cls) ≡ (stale row cls, 1)
unfolding update is_moved assign
update-stale row opens cls = rw (equal-same row.proxy_ip, equal-same row.db_type) (ground arith)

load_row-old :
    (row : ProxyRow) (opens : Bool) (m : ProxyMap) (cls : GreenSql)
    → find row.proxy_id m.proxies ≡ some cls
    → load_row row opens m ≡ load_old row opens cls m
unfolding load_row
load_row-old row opens m cls e =
    ap
      (λ o. elim o as (λ x. ProxyMap) [
        | none ↦ load_new row opens m
        | some cls ↦ load_old row opens cls m
      ])
      e

load_old-updated :
    (row : ProxyRow) (opens : Bool) (m : ProxyMap) (cls next : GreenSql) (status : ℕ)
    → update row opens cls ≡ (next, status)
    → ((load_old row opens cls m).statuses ≡ m.statuses ++ ((row.proxy_id, status) ∷ []))
      × (find row.proxy_id (load_old row opens cls m).proxies ≡ some next)
unfolding load_old set_db_status
load_old-updated row opens m cls next status u =
    let here : (row.proxy_id == row.proxy_id) ≡ true = ground arith in
    (
      ap (λ p. m.statuses ++ ((row.proxy_id, p.1) ∷ [])) u,
      find-put row.proxy_id row.proxy_id (update row opens cls).0 m.proxies
          ∙ rw here (ap (λ p. some p.0) u),
    )

load_row-found :
    (row : ProxyRow) (opens : Bool) (m : ProxyMap) (cls next : GreenSql) (status : ℕ)
    → find row.proxy_id m.proxies ≡ some cls
    → update row opens cls ≡ (next, status)
    → ((load_row row opens m).statuses ≡ m.statuses ++ ((row.proxy_id, status) ∷ []))
      × (find row.proxy_id (load_row row opens m).proxies ≡ some next)
load_row-found row opens m cls next status e u =
    rw (load_row-old row opens m cls e) (load_old-updated row opens m cls next status u)

-- A proxy whose row names another address or type, and whose new socket cannot be opened: its status
-- becomes 2, that it failed to load. A later reload of the same row takes the settings for unchanged,
-- does not try to open the socket, and writes the status 1 for a good proxy, though it does not listen.
pub load_rows-stale :
    (m : ProxyMap) (row : ProxyRow) (cls : GreenSql) (opens : Bool)
    → find row.proxy_id m.proxies ≡ some cls
    → is_moved row cls ≡ true
    → let failed = load_rows ((row, false) ∷ []) m in
      let later = load_rows ((row, opens) ∷ []) failed in
      (failed.statuses ≡ m.statuses ++ ((row.proxy_id, 2) ∷ []))
      × (later.statuses ≡ failed.statuses ++ ((row.proxy_id, 1) ∷ []))
      × (next : GreenSql) × (find row.proxy_id later.proxies ≡ some next)
      × (next.is_listening ≡ false)
unfolding load_rows assign
load_rows-stale m row cls opens e moved =
    let (s1, f1) =
      load_row-found row false m cls (stale row cls) 2 e (update-moved row cls moved) in
    let (s2, f2) =
      load_row-found row opens (load_row row false m) (stale row cls) (stale row cls) 1 f1
        (update-stale row opens cls) in
    (s1, s2, stale row cls, f2, refl)
