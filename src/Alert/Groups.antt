-- ===== src/Alert/Groups.antt =====
-- Which alerts share a group (src/alert.cpp).
use greensql_fw.Base.{
  ℕ, ◌%◌, Bool, true, false, not, ◌&&◌, ◌==◌, Bytes, [], ◌∷◌, ◌++◌, ◌≡◌, ◌↔◌, refl, arith,
}
use greensql_fw.Alert.{group_key, Alert, AlertRow, AlertDb}

-- No comma in a name.
abbrev pub comma_free : Bytes → Bool
comma_free [] = true
comma_free (c ∷ s) = not (c == b',') && comma_free s

split_comma :
    (a b x y : Bytes)
    → comma_free a ≡ true
    → comma_free b ≡ true
    → a ++ (b',' ∷ x) ≡ b ++ (b',' ∷ y)
    → (a ≡ b) × (x ≡ y)
split_comma [] [] x y h k e = (refl, cc)
split_comma [] (c ∷ b) x y h k e = ground arith
split_comma (c ∷ a) [] x y h k e = ground arith
split_comma (c ∷ a) (d ∷ b) x y h k e =
    let (p, q) = split_comma a b x y (ground arith) (ground arith) (cc) in (cc p, q)

-- Alerts in databases without a comma in the name share a key exactly if they are of the same database
-- and pattern, and of proxies whose numbers are the same modulo 256, whatever the patterns hold.
pub group_key_iff :
    (id id' : ℕ) (name name' pattern pattern' : Bytes)
    → comma_free name ≡ true
    → comma_free name' ≡ true
    → (group_key id name pattern ≡ group_key id' name' pattern')
      ↔ ((id % 256 ≡ id' % 256) × (name ≡ name') × (pattern ≡ pattern'))
unfolding group_key
group_key_iff id id' name name' pattern pattern' f f' = (
  λ e.
      let head : id % 256 ≡ id' % 256 = cc e in
      let tail : name ++ (b',' ∷ pattern) ≡ name' ++ (b',' ∷ pattern') = cc e in
      let (same_name, same_pattern) = split_comma name name' pattern pattern' f f' tail in
      (head, same_name, same_pattern),
  λ (p, q, r). rw (p, q, r),
)

-- The row that an alert is in its group.
abbrev pub row_of : {D : Type 0} → AlertDb D → ℕ → Alert → AlertRow
row_of db g e = record {
  agroupid = g;
  risk = e.risk;
  block = e.block;
  db_user = db.escape e.db_user;
  db_user_ip = e.db_user_ip;
  query = db.escape e.query;
  reason = db.escape e.reason;
}

module _ {D : Type 0} (db : AlertDb D) where
  -- What an alert in the group `g` makes of the database.
  abbrev pub written : D → ℕ → Alert → D
  written d g e = db.update_group (db.insert_alert d (row_of db g e)) g false
