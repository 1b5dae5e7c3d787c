-- ===== src/Permissions/Whitelist.antt =====
-- LoadWhitelist and CheckWhitelist of src/dbpermobj.cpp against the table of whitelisted queries.
use greensql_fw.Base.{
  Bool, ◌&&◌, ltb, if◌then◌else◌, Bytes, [], List, ◌∷◌, Option, none, some, equal, equal_iff,
  length, ◌≡◌, refl, arith, Bool-cases, inl, inr,
}
use greensql_fw.Base.Int.{ℤ, pos, is_positive}
use greensql_fw.Permissions.{DbPermObj, find, insert, load_rows, load_whitelist, check_whitelist}

find-insert :
    {V : Type 0} (k j : Bytes) (v : V) (m : List (Bytes × V))
    → find j (insert k v m)
      ≡ elim (find j m) [ none ↦ if equal k j then some v else none | some w ↦ some w ]
unfolding find insert
find-insert k j v [] = refl
find-insert k j v ((i, w) ∷ m) =
    ground (arith, equal_iff i k, equal_iff i j, equal_iff k j, find-insert k j v m)

-- A row that counts: a positive permission for a query that is not empty.
abbrev pub counts : Bytes × ℤ → Bool
counts (q, perm) = is_positive perm && ltb 0 (length q)

-- The permission that a table grants a pattern: that of the first row for it that counts, or 0.
unfoldable pub granted : List (Bytes × ℤ) → Bytes → Option ℤ
granted [] q = none
granted ((q_ex, perm) ∷ rows) q =
    if counts (q_ex, perm) && equal q_ex q then some perm else granted rows q

find-load_rows :
    (m rows : List (Bytes × ℤ)) (q : Bytes)
    → find q (load_rows m rows) ≡ elim (find q m) [ none ↦ granted rows q | some w ↦ some w ]
unfolding load_rows granted
find-load_rows m [] q = ground arith
find-load_rows m ((q_ex, perm) ∷ rows) q = elim (Bool-cases (counts (q_ex, perm))) [
  | inl yes_row ↦
      rw yes_row
        (ground (arith, find-load_rows (insert q_ex perm m) rows q, find-insert q_ex q perm m))
  | inr no_row ↦
      let skip : granted ((q_ex, perm) ∷ rows) q ≡ granted rows q = rw (no_row, granted) in
      rw no_row (ground (arith, skip, find-load_rows m rows q))
]

-- After LoadWhitelist, CheckWhitelist answers what the table grants; where the query of the table
-- fails, it answers as before.
pub check_whitelist-load :
    (o : DbPermObj) (rows : List (Bytes × ℤ)) (q : Bytes)
    → (check_whitelist (load_whitelist o (some rows)).0 q
        ≡ elim (granted rows q) [ none ↦ pos 0 | some perm ↦ perm ])
      × (check_whitelist (load_whitelist o none).0 q ≡ check_whitelist o q)
unfolding check_whitelist load_whitelist find
check_whitelist-load o rows q = (ground (arith, find-load_rows [] rows q), refl)
