-- ===== src/DbMap/Reload.antt =====
-- What dbmap_reload of src/dbmap.cpp makes of the permissions of one key.
use greensql_fw.Base.{
  Bool, false, ◌&&◌, true, if◌then◌else◌, Bytes, [], ◌∷◌, List, Option, none, some, equal,
  equal_iff, ◌≡◌, refl, ◌∙◌, ap, arith, Bool-cases, inl, inr,
}
use greensql_fw.Base.Int.{ℤ}
use greensql_fw.Permissions.{DbPermObj, find, init, load_whitelist}
use greensql_fw.Permissions.Flags.{init_flags}
use greensql_fw.DbMap.{
  DbMap, DbRow, Answers, WhitelistTable, row_key, put, refresh, load_dbs, default_name,
  dbmap_reload,
}

find-put :
    (k j : Bytes) (o : DbPermObj) (m : List (Bytes × DbPermObj))
    → find k (put j o m) ≡ (if equal j k then some o else find k m)
unfolding find put
find-put k j o [] = refl
find-put k j o ((i, p) ∷ m) =
    ground (arith, equal_iff i j, equal_iff i k, equal_iff j k, find-put k j o m)

-- What the rows for a key, in their order, make of its object.
pub refreshed : WhitelistTable → Bytes → List DbRow → Option DbPermObj → Option DbPermObj
refreshed table k [] old = old
refreshed table k (row ∷ rows) old =
    refreshed table k rows
      (if equal (row_key row) k then some (refresh table old row.db_name row) else old)

find-load_dbs :
    (table : WhitelistTable) (rows : List DbRow) (m : List (Bytes × DbPermObj)) (k : Bytes)
    → find k (load_dbs table rows m) ≡ refreshed table k rows (find k m)
unfolding load_dbs refreshed
find-load_dbs table [] m k = refl
find-load_dbs table (row ∷ rows) m k =
    find-load_dbs table rows _ k
    ∙ rw (find-put k (row_key row)) (elim (Bool-cases (equal (row_key row) k)) [
      | inl hit ↦ rw hit (
          ap (λ x. refreshed table k rows (some (refresh table (find x m) row.db_name row)))
            ((equal_iff (row_key row) k).0 hit))
      | inr miss ↦ rw miss
    ])

-- What the rows of the default settings for a key make of its object. The name in them is empty for
-- "empty_mysql".
pub refreshed_default : WhitelistTable → Bytes → List DbRow → Option DbPermObj → Option DbPermObj
refreshed_default table k [] old = old
refreshed_default table k (row ∷ rows) old =
    refreshed_default table k rows
      (if equal row.db_type k then some (refresh table old (default_name row) row) else old)

-- How far the reload gets: past both updates, the query for the databases, and that for the defaults.
abbrev pub first_rows : Answers → Option (List DbRow)
first_rows answers = if answers.learning3 && answers.learning7 then answers.rows else none

-- The two lists of rows that the loops see.
abbrev pub seen : Option (List DbRow) → List DbRow
seen none = []
seen (some rows) = rows

abbrev pub second_rows : Answers → Option (List DbRow)
second_rows answers = elim (first_rows answers) [ none ↦ none | some rows ↦ answers.defaults ]

abbrev pub is_read : Option (List DbRow) → Bool
is_read none = false
is_read (some rows) = true

-- The object of each key, the object for no key, and the result.
abbrev pub IsReloaded : Answers → DbMap → Bytes → Type 0
IsReloaded answers m k =
    (find k (dbmap_reload answers m).0.dbs
      ≡ refreshed_default answers.whitelists k (seen (second_rows answers))
          (refreshed answers.whitelists k (seen (first_rows answers)) (find k m.dbs)))
    × ((dbmap_reload answers m).0.default_db ≡ m.default_db)
    × ((dbmap_reload answers m).1 ≡ is_read (second_rows answers))

load_whitelist_drop :
    (o : DbPermObj) (rows : Option (List (Bytes × ℤ)))
    → (load_whitelist o rows).0.drop_perm ≡ o.drop_perm
unfolding load_whitelist
load_whitelist_drop o none = refl
load_whitelist_drop o (some rows) = refl

-- A right to drop that an object has is there after the rows, whatever bits they hold.
refresh_keeps_drop :
    (table : WhitelistTable) (o : DbPermObj) (name : Bytes) (row : DbRow)
    → o.drop_perm ≡ true
    → (refresh table (some o) name row).drop_perm ≡ true
unfolding refresh
refresh_keeps_drop table o name row h =
    load_whitelist_drop (init o name row.proxy_id row.perms row.perms2 row.status)
      (table row.proxy_id name)
    ∙ (init_flags o name row.proxy_id row.perms row.perms2 row.status).1
    ∙ rw h

refreshed_keeps_drop :
    (table : WhitelistTable) (k : Bytes) (rows : List DbRow) (o : DbPermObj)
    → o.drop_perm ≡ true
    → (o' : DbPermObj) × (refreshed table k rows (some o) ≡ some o') × (o'.drop_perm ≡ true)
unfolding refreshed
refreshed_keeps_drop table k [] o h = (o, refl, h)
refreshed_keeps_drop table k (row ∷ rows) o h = elim (Bool-cases (equal (row_key row) k)) [
  | inl hit ↦ rw hit (
      refreshed_keeps_drop table k rows (refresh table (some o) row.db_name row)
        (refresh_keeps_drop table o row.db_name row h))
  | inr miss ↦ rw miss (refreshed_keeps_drop table k rows o h)
]

-- Where the object of a key grants the permission to drop tables, the object of the key grants it
-- after a reload too, whatever the rows say: a permission that is taken away in the configuration
-- database stays in force.
load_dbs_keeps_drop :
    (table : WhitelistTable) (rows : List DbRow) (m : List (Bytes × DbPermObj)) (k : Bytes)
    (o : DbPermObj)
    → find k m ≡ some o
    → o.drop_perm ≡ true
    → (o' : DbPermObj) × (find k (load_dbs table rows m) ≡ some o') × (o'.drop_perm ≡ true)
load_dbs_keeps_drop table rows m k o e h =
    rw (find-load_dbs table rows m k, e) (refreshed_keeps_drop table k rows o h)
