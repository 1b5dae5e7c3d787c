-- ===== src/Permissions/Flags.antt =====
-- What Init of src/dbpermobj.cpp does to the permissions.
use greensql_fw.Base.{ℕ, ◌||◌, Bytes, ◌≡◌, arith}
use greensql_fw.Permissions.{DbPermObj, to_status, has_flag, init}

-- Init grants each permission whose bit is set, and never takes one away: a permission that an
-- object has stays when the settings are read again without its bit.
pub init_flags :
    (o : DbPermObj) (name : Bytes) (id p perms2 status : ℕ)
    → let o' = init o name id p perms2 status in
      (o'.create_perm ≡ (o.create_perm || has_flag p 1))
      × (o'.drop_perm ≡ (o.drop_perm || has_flag p 2))
      × (o'.alter_perm ≡ (o.alter_perm || has_flag p 4))
      × (o'.info_perm ≡ (o.info_perm || has_flag p 8))
      × (o'.block_q_perm ≡ (o.block_q_perm || has_flag p 16))
      × (o'.bruteforce_perm ≡ (o.bruteforce_perm || has_flag p 32))
      × (o'.block_status ≡ to_status status)
      × (o'.exceptions ≡ o.exceptions)
unfolding init
init_flags o name id p perms2 status = (
  ground arith,
  ground arith,
  ground arith,
  ground arith,
  ground arith,
  ground arith,
  ground arith,
  ground arith,
)
