-- ===== src/Alert/Statements.antt =====
-- The statements of src/alert.cpp for the configuration database, as texts.
pub mod Bounds
use greensql_fw.Base.{
  ℕ, suc, ◌+◌, ◌-◌, Bool, true, false, not, ◌==◌, if◌then◌else◌, Bytes, [], ◌∷◌, ◌++◌, List, Option,
  none, some, codes, length, take,
}
use greensql_fw.Base.Int.{ℤ, pos, negsuc}
use greensql_fw.Misc.{digits_text}
use greensql_fw.Config.Backend.{BackendDb}
use greensql_fw.Driver.Escape.{strlen}
use greensql_fw.Alert.{AlertRow, AlertDb}

-- What `%s` takes of a text, and `%d` of an int.
abbrev pub c_str : Bytes → Bytes
c_str s = take (strlen s) s

abbrev pub int_text : ℤ → Bytes
int_text (pos n) = digits_text n
int_text (negsuc n) = b'-' ∷ digits_text (suc n)

-- snprintf into a buffer of `size` bytes, the last of them for a zero.
abbrev pub snprintf : ℕ → Bytes → Bytes
snprintf size text = take (size - 1) text

abbrev pub group_size : Bytes → Bytes → ℕ
group_size db_name pattern = length pattern + length db_name + 1024

pub select_text : ℕ → Bytes → Bytes → Bytes
select_text proxy_id db_name pattern =
    codes "SELECT agroupid FROM alert_group WHERE proxyid = "
    ++ (digits_text proxy_id
        ++ (codes " and db_name = '"
            ++ (c_str db_name ++ (codes "' and pattern = '" ++ (c_str pattern ++ codes "'")))))

pub insert_text : ℕ → Bytes → Bytes → Bytes
insert_text proxy_id db_name pattern =
    codes "INSERT into alert_group (proxyid, db_name, update_time, pattern) VALUES ("
    ++ (digits_text proxy_id
        ++ (codes ",'" ++ (c_str db_name ++ (codes "',now(),'" ++ (c_str pattern ++ codes "')")))))

pub select_statement : ℕ → Bytes → Bytes → Bytes
select_statement proxy_id db_name pattern =
    snprintf (group_size db_name pattern) (select_text proxy_id db_name pattern)

pub insert_statement : ℕ → Bytes → Bytes → Bytes
insert_statement proxy_id db_name pattern =
    snprintf (group_size db_name pattern) (insert_text proxy_id db_name pattern)

-- The texts of an alert are C strings here.
pub alert_text : AlertRow → Bytes
alert_text row =
    codes
      "INSERT into alert (agroupid, event_time, risk, block, dbuser, userip, query, reason) VALUES ("
    ++ (digits_text row.agroupid
        ++ (codes ",now(),"
            ++ (int_text row.risk
                ++ (codes ","
                    ++ (digits_text row.block
                        ++ (codes ",'"
                            ++ (row.db_user
                                ++ (codes "','"
                                    ++ (row.db_user_ip
                                        ++ (codes "','"
                                            ++ (row.query
                                                ++ (codes "','"
                                                    ++ (row.reason ++ codes "')")))))))))))))

-- The buffer has room for the query and the reason, and 1024 bytes.
pub alert_statement : AlertRow → Bytes
alert_statement row = snprintf (length row.query + length row.reason + 1024) (alert_text row)

-- agroup_update, and with `set_status` agroup_update_status.
pub update_statement : ℕ → (set_status : Bool) → Bytes
update_statement agroupid set_status = snprintf 1024 (
    codes "UPDATE alert_group SET update_time=now()"
    ++ ((if set_status then codes ", status=1" else [])
        ++ (codes " WHERE agroupid = " ++ digits_text agroupid)))

-- db_query with the first column of the rows as numbers, db_exec, and db_changes.
pub record Store (D : Type 0) : Type 0 where
  pub query : D → Bytes → Option (List ℕ)
  pub exec : D → Bytes → D × Bool
  pub changes : D → Bool

module _ {D : Type 0} (store : Store D) where
  -- agroup_get: the first row, or 0.
  pub agroup_get : D → ℕ → Bytes → Bytes → ℕ
  agroup_get d proxy_id db_name pattern =
      first (store.query d (select_statement proxy_id db_name pattern))
    where
      first : Option (List ℕ) → ℕ
      first none = 0
      first (some []) = 0
      first (some (i ∷ rows)) = i

  -- The statement of agroup_add, and whether a row was added.
  pub exec_group : D → ℕ → Bytes → Bytes → D × Bool
  exec_group d proxy_id db_name pattern =
      let (next, success) = store.exec d (insert_statement proxy_id db_name pattern) in
      (next, if success then store.changes next else false)

  -- The statements of src/alert.cpp as the interface that logalert works on.
  pub alert_db : BackendDb → (Bytes → Bytes) → AlertDb D
  alert_db db_type escape = record {
    db_type = db_type;
    escape = escape;
    select_group = agroup_get;
    insert_group = exec_group;
    insert_alert = λ d row. (store.exec d (alert_statement row)).0;
    update_group = λ d agroupid set_status. (store.exec d (update_statement agroupid set_status)).0;
  }
