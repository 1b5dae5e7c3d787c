-- ===== src/DbMap/Keys.antt =====
-- The keys of src/dbmap.cpp.
use greensql_fw.Base.{ℕ, Bytes, ◌≡◌, ◌∙◌, sym, ap}
use greensql_fw.Misc.{digits_text}
use greensql_fw.Misc.Decimal.{decimal, decimal-digits_text, digits_text-digits, digits-comma}
use greensql_fw.DbMap.{db_key}

-- Two databases have the same key only if they are the same: neither a name with a comma nor a
-- proxy number that begins another can bring the permissions of another database.
pub db_key-injective :
    (id id' : ℕ) (name name' : Bytes)
    → db_key id name ≡ db_key id' name'
    → (id ≡ id') × (name ≡ name')
unfolding db_key
db_key-injective id id' name name' e =
    let (p, q) =
      digits-comma (digits_text id) (digits_text id') name name' (digits_text-digits id)
        (digits_text-digits id') e in
    (sym (decimal-digits_text id) ∙ ap (decimal 0) p ∙ decimal-digits_text id', q)
