-- ===== src/Alert/Tests.antt =====
-- Alerts of two proxies for src/alert.cpp, with a database that knows one group.
use greensql_fw.Base.{ℕ, ◌+◌, ◌≤◌, ◌%◌, true, [], ◌∷◌, ◌++◌, List, codes, length, ◌≡◌, ◌↔◌, refl}
use greensql_fw.Base.Int.{pos}
use greensql_fw.Permissions
use greensql_fw.Config.Backend.{db_my_sql}
use greensql_fw.Alert.{group_key, Alert, AlertRow, AlertDb}
use greensql_fw.Misc.{digits_text}
use greensql_fw.Alert.Statements.{int_text, alert_statement, alert_text}
use greensql_fw.Alert.Statements.Bounds.{alert_statement_iff}
use greensql_fw.Alert.Groups.{group_key_iff}

-- The number of the group, or 0 for none yet, and the alerts.
abbrev Store : Type 0
Store = ℕ × List AlertRow

abbrev group_store : AlertDb Store
group_store = record {
  db_type = db_my_sql;
  escape = λ s. s;
  select_group = λ d proxy_id db_name pattern. d.0;
  insert_group = λ d proxy_id db_name pattern. ((7, d.1), true);
  insert_alert = λ d row. (d.0, d.1 ++ (row ∷ []));
  update_group = λ d g set_status. d;
}

abbrev dropped : Alert
dropped = record {
  proxy_id = 1;
  db_name = codes "shop";
  db_user = codes "web";
  db_user_ip = codes "10.0.0.9";
  query = codes "drop table x";
  pattern = codes "drop table x";
  reason = [];
  risk = pos 30;
  block = 1;
}

-- The same of the proxy 257.
abbrev other : Alert
other = record dropped { proxy_id = 257 }

group_key_iff_example :
    (group_key 1 (codes "shop") (codes "select ?,?")
      ≡ group_key 257 (codes "shop") (codes "select ?,?"))
    ↔ ((dropped.proxy_id % 256 ≡ other.proxy_id % 256)
        × (codes "shop" ≡ codes "shop")
        × (codes "select ?,?" ≡ codes "select ?,?"))
group_key_iff_example =
    group_key_iff 1 257 (codes "shop") (codes "shop") (codes "select ?,?") (codes "select ?,?") refl
      refl

abbrev row : AlertRow
row = record {
  agroupid = 7;
  risk = pos 30;
  block = 1;
  db_user = codes "web";
  db_user_ip = codes "10.0.0.9";
  query = codes "drop table x";
  reason = [];
}

alert_statement_iff_example : (alert_statement row ≡ alert_text row) ↔ (
    length row.db_user
      + length row.db_user_ip
      + length (digits_text row.agroupid)
      + length (int_text row.risk)
      + length (digits_text row.block)
    ≤ 909)
alert_statement_iff_example = alert_statement_iff row
