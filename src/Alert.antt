-- ===== src/Alert.antt =====
-- src/alert.cpp: the groups of alerts, and what is written for an alert. The configuration database is
-- a parameter.
pub mod Groups
pub mod Statements
mod Tests
use greensql_fw.Base.{
  not, ℕ, ◌%◌, Bool, true, false, ◌==◌, if◌then◌else◌, Bytes, [], ◌∷◌, ◌++◌, List, Option, none,
  some, equal, ◌>>=◌,
}
use greensql_fw.Base.Int.{ℤ}
use greensql_fw.Permissions.{find}
use greensql_fw.Config.Backend.{BackendDb, db_my_sql, db_pg_sql}

-- `agroupmap`: the number of a group by its key.
abbrev pub GroupMap : Type 0
GroupMap = List (Bytes × ℕ)

-- `key = proxy_id; key += ","; ...`: the assignment of an integer is that of one char.
unfoldable pub group_key : ℕ → Bytes → Bytes → Bytes
group_key proxy_id db_name pattern = proxy_id % 256 ∷ b',' ∷ (db_name ++ (b',' ∷ pattern))

-- The number 0 stands for no group.
pub agroupmap_get : GroupMap → ℕ → Bytes → Bytes → ℕ
agroupmap_get m proxy_id db_name pattern = elim (find (group_key proxy_id db_name pattern) m) [
  | none ↦ 0
  | some agroupid ↦ agroupid
]

-- `agroupmap[key] = agroupid`.
pub set_group : Bytes → ℕ → GroupMap → GroupMap
set_group k v [] = (k, v) ∷ []
set_group k v ((j, w) ∷ m) = if equal j k then (j, v) ∷ m else (j, w) ∷ set_group k v m

-- A row of `q_agroup`.
pub record GroupRow : Type 0 where
  pub agroupid : ℕ
  pub proxy_id : ℕ
  pub db_name : Bytes
  pub pattern : Bytes

pub load_groups : List GroupRow → GroupMap → GroupMap
load_groups [] m = m
load_groups (row ∷ rows) m =
    load_groups rows (set_group (group_key row.proxy_id row.db_name row.pattern) row.agroupid m)

-- agroupmap_reload; `none` is a query that fails.
pub agroupmap_reload : Option (List GroupRow) → GroupMap → GroupMap × Bool
agroupmap_reload none m = (m, false)
agroupmap_reload (some rows) m = (load_groups rows [], true)

-- The arguments of logalert and logwhitelist.
pub record Alert : Type 0 where
  pub proxy_id : ℕ
  pub db_name : Bytes
  pub db_user : Bytes
  pub db_user_ip : Bytes
  pub query : Bytes
  pub pattern : Bytes
  pub reason : Bytes
  pub risk : ℤ
  pub block : ℕ

-- A row for the table of alerts.
pub record AlertRow : Type 0 where
  pub agroupid : ℕ
  pub risk : ℤ
  pub block : ℕ
  pub db_user : Bytes
  pub db_user_ip : Bytes
  pub query : Bytes
  pub reason : Bytes

-- The statements for the configuration database: `select_group` answers 0 where the query fails or
-- finds nothing, `insert_group` whether a row was added. `set_status` is that of
-- agroup_update_status.
pub record AlertDb (D : Type 0) : Type 0 where
  pub db_type : BackendDb
  pub escape : Bytes → Bytes
  pub select_group : D → ℕ → Bytes → Bytes → ℕ
  pub insert_group : D → ℕ → Bytes → Bytes → D × Bool
  pub insert_alert : D → AlertRow → D
  pub update_group : D → ℕ → (set_status : Bool) → D

-- What logalert leaves: the map, the database, and its result.
pub record Logged (D : Type 0) : Type 0 where
  pub groups : GroupMap
  pub database : D
  pub result : Bool

module _ {D : Type 0} (db : AlertDb D) where
  -- agroup_add. The number is entered in the map also where it is 0.
  pub agroup_add : D → GroupMap → Alert → D × GroupMap × ℕ
  agroup_add d m e =
      let (next, added) = db.insert_group d e.proxy_id e.db_name e.pattern in
      let agroupid = db.select_group next e.proxy_id e.db_name e.pattern in
      if added
      then (next, set_group (group_key e.proxy_id e.db_name e.pattern) agroupid m, agroupid)
      else (next, m, 0)

  -- The three ways to the number of the group.
  pub find_group : D → GroupMap → Alert → D × GroupMap × ℕ
  find_group d m e =
      let cached = agroupmap_get m e.proxy_id e.db_name e.pattern in
      let stored = db.select_group d e.proxy_id e.db_name e.pattern in
      if not (cached == 0)
      then (d, m, cached)
      else if not (stored == 0)
      then (d, m, stored)
      else agroup_add d m e

  -- alert_add: its result is not looked at. For PostgreSQL the format has one conversion more than
  -- there are arguments: undefined behaviour.
  pub alert_add : D → ℕ → Alert → Option D
  alert_add d agroupid e = at_type db.db_type
    where
      at_type : BackendDb → Option D
      at_type db_my_sql = some (
          db.insert_alert d (record {
            agroupid = agroupid;
            risk = e.risk;
            block = e.block;
            db_user = db.escape e.db_user;
            db_user_ip = e.db_user_ip;
            query = db.escape e.query;
            reason = db.escape e.reason;
          }))
      at_type db_pg_sql = none

  -- logalert, and with `set_status` logwhitelist.
  pub log_entry : (set_status : Bool) → D → GroupMap → Alert → Option (Logged D)
  log_entry set_status d m e =
      let (found, groups, agroupid) = find_group d m e in
      if agroupid == 0
      then some record { groups = groups; database = found; result = false }
      else alert_add found agroupid e >>= (λ written. some record {
        groups = groups;
        database = db.update_group written agroupid set_status;
        result = true;
      })

  pub logalert : D → GroupMap → Alert → Option (Logged D)
  logalert d m e = log_entry false d m e

  pub logwhitelist : D → GroupMap → Alert → Option (Logged D)
  logwhitelist d m e = log_entry true d m e
