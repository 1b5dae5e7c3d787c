-- ===== src/Permissions.antt =====
-- DBPermObj of src/dbpermobj.hpp and src/dbpermobj.cpp: the permissions, the protection mode and the
-- whitelist of one database. Rows of the configuration database come in as arguments; `none` is a
-- query that failed.
pub mod Whitelist
pub mod Flags
use greensql_fw.Base.{
  ℕ, ◌/◌, ◌%◌, Bool, true, false, not, ◌&&◌, ◌||◌, ltb, ◌==◌, if◌then◌else◌, Bytes, [], List, ◌∷◌,
  Option, none, some, equal, length, codes,
}
use greensql_fw.Base.Int.{ℤ, pos, is_positive}

-- A number outside of the enumeration is kept by the cast.
pub data DbBlockStatus : Type 0 where
  risk_block privilege_block risk_simulation privilege_simulation always_block_new : DbBlockStatus
  learning_mode learning_mode_3_days learning_mode_7_days : DbBlockStatus
  other_status : ℕ → DbBlockStatus

-- `(DBBlockStatus) status`.
pub to_status : ℕ → DbBlockStatus
to_status n =
    if n == 0
    then risk_block
    else if n == 1
    then privilege_block
    else if n == 2
    then risk_simulation
    else if n == 3
    then privilege_simulation
    else if n == 4
    then always_block_new
    else if n == 10
    then learning_mode
    else if n == 11
    then learning_mode_3_days
    else if n == 12
    then learning_mode_7_days
    else other_status n

pub record DbPermObj : Type 0 where
  pub create_perm : Bool
  pub drop_perm : Bool
  pub alter_perm : Bool
  pub info_perm : Bool
  pub block_q_perm : Bool
  pub bruteforce_perm : Bool
  pub block_status : DbBlockStatus
  pub db_name : Bytes
  pub proxy_id : ℕ
  pub perms : ℕ
  pub exceptions : List (Bytes × ℤ)

-- The constructor; it leaves `perms` unset, which nothing reads before Init.
unfoldable pub new_perm_obj : DbPermObj
new_perm_obj = record {
  create_perm = false;
  drop_perm = false;
  alter_perm = false;
  info_perm = false;
  block_q_perm = false;
  bruteforce_perm = false;
  block_status = risk_block;
  db_name = codes "default";
  proxy_id = 0;
  perms = 0;
  exceptions = [];
}

-- `perms & flag`, for a flag that is a power of two.
abbrev pub has_flag : ℕ → ℕ → Bool
has_flag perms flag = (perms / flag) % 2 == 1

unfoldable pub init : DbPermObj → Bytes → ℕ → ℕ → ℕ → ℕ → DbPermObj
unfolding to_status
init o name id p perms2 status =
    let settled = record o {
      db_name = name;
      proxy_id = id;
      block_status = to_status status;
      perms = p;
    } in
    if p == 0 then settled else record settled {
      create_perm = if has_flag p 1 then true else o.create_perm;
      drop_perm = if has_flag p 2 then true else o.drop_perm;
      alter_perm = if has_flag p 4 then true else o.alter_perm;
      info_perm = if has_flag p 8 then true else o.info_perm;
      block_q_perm = if has_flag p 16 then true else o.block_q_perm;
      bruteforce_perm = if has_flag p 32 then true else o.bruteforce_perm;
    }

-- std::map: `find`, and `insert`, which keeps an entry that is there.
unfoldable pub find {ℓ} : {V : Type ℓ} → Bytes → List (Bytes × V) → Option V
find k [] = none
find k ((j, v) ∷ m) = if equal j k then some v else find k m

pub insert {ℓ} : {V : Type ℓ} → Bytes → V → List (Bytes × V) → List (Bytes × V)
insert k v [] = (k, v) ∷ []
insert k v ((j, w) ∷ m) = if equal j k then (j, w) ∷ m else (j, w) ∷ insert k v m

-- The loop of LoadWhitelist over the rows (query, perm).
pub load_rows : List (Bytes × ℤ) → List (Bytes × ℤ) → List (Bytes × ℤ)
load_rows q_list [] = q_list
load_rows q_list ((q_ex, perm) ∷ rows) =
    load_rows (if is_positive perm && ltb 0 (length q_ex) then insert q_ex perm q_list else q_list)
      rows

unfoldable pub load_whitelist : DbPermObj → Option (List (Bytes × ℤ)) → DbPermObj × Bool
unfolding load_rows insert
load_whitelist o none = (o, false)
load_whitelist o (some rows) = (record o { exceptions = load_rows [] rows }, true)

unfoldable pub check_whitelist : DbPermObj → Bytes → ℤ
unfolding find
check_whitelist o q = elim (find q o.exceptions) [ none ↦ pos 0 | some perm ↦ perm ]

-- AddToWhitelist, on what the configuration database answers: whether the pattern is there (`none`
-- if the query fails) and whether an insertion succeeds. The second result is the row (perm, name,
-- pattern) that it tries to insert; the whitelist in memory is not touched.
unfoldable pub add_to_whitelist :
    DbPermObj → Bytes → Bytes → Option Bool → Bool → Bool × Option (ℤ × Bytes × Bytes)
add_to_whitelist o dbuser pattern none inserted = (false, none)
add_to_whitelist o dbuser pattern (some true) inserted = (true, none)
add_to_whitelist o dbuser pattern (some false) inserted =
    (inserted, some (pos 1, o.db_name, pattern))
