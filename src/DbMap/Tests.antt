-- ===== src/DbMap/Tests.antt =====
-- The permissions and their map at small tables.
use greensql_fw.Base.{ℕ, true, Bytes, [], ◌∷◌, List, some, codes, equal, ◌≡◌, refl}
use greensql_fw.Base.Int.{pos}
use greensql_fw.Permissions.{DbPermObj, new_perm_obj, load_whitelist, check_whitelist}
use greensql_fw.Permissions.Whitelist.{granted, check_whitelist-load}
use greensql_fw.DbMap.{DbRow, WhitelistTable, Answers}
use greensql_fw.DbMap.Keys.{db_key-injective}

abbrev shop : DbRow
shop = record {
  proxy_id = 12;
  db_name = codes "shop";
  perms = 0;
  perms2 = 0;
  status = 1;
  db_type = codes "mysql";
}

abbrev table : WhitelistTable
table id name = some ((codes "select ?", pos 1) ∷ (codes "x", pos 0) ∷ [])

abbrev dropper : DbPermObj
dropper = record new_perm_obj { drop_perm = true }

abbrev before : List (Bytes × DbPermObj)
before = (codes "12,shop", dropper) ∷ []

-- The default settings for MySQL.
abbrev defaults : DbRow
defaults = record {
  proxy_id = 0;
  db_name = [];
  perms = 0;
  perms2 = 0;
  status = 2;
  db_type = codes "default_mysql";
}

abbrev answers : Answers
answers = record {
  learning3 = true;
  learning7 = true;
  rows = some (shop ∷ []);
  defaults = some (defaults ∷ []);
  whitelists = table;
}

check_whitelist-load_example :
    check_whitelist
      (load_whitelist new_perm_obj (some ((codes "a", pos 0) ∷ (codes "a", pos 2) ∷ []))).0
      (codes "a")
    ≡ pos 2
unfolding granted equal
check_whitelist-load_example =
    (check_whitelist-load new_perm_obj ((codes "a", pos 0) ∷ (codes "a", pos 2) ∷ []) (codes "a")).0

db_key-injective_example : (◌≡◌ {A = ℕ} 12 12) × (codes "shop" ≡ codes "shop")
db_key-injective_example = db_key-injective 12 12 (codes "shop") (codes "shop") refl
