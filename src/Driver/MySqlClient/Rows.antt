-- ===== src/Driver/MySqlClient/Rows.antt =====
-- The rows that the loops over a result of MySQL read (src/lib/sql_api.c).
use greensql_fw.Base.{
  ℕ, zero, suc, ◌+◌, ◌≤◌, ◌<◌, Bool, true, ◌&&◌, leb, Bytes, [], ◌∷◌, List, Option, none, some,
  length, take, drop, map, ◌≡◌, refl, arith,
}
use greensql_fw.Driver.{Row, columns, fetch_loop}
use greensql_fw.Driver.MySqlClient.{
  MySqlClient, MySqlStruct, cell, my_sql_driver, db_col_text, db_fetch_row,
}

-- mysql_fetch_row takes the rows of a result from the front, and answers a null pointer at its end.
abbrev pub IsNext : {R : Type 0} → (R → List Row) → List Row → R × Option Row → Type 0
IsNext rows_of [] (rest, row) = row ≡ none
IsNext rows_of (r ∷ rows) (rest, row) = (row ≡ some r) × (rows_of rest ≡ rows)

abbrev pub IsFetching : {C R : Type 0} → MySqlClient C R → (R → List Row) → Type 0
IsFetching {R = R} client rows_of = (r : R) → IsNext rows_of (rows_of r) (client.fetch_row r)

-- No row has fewer than `n` cells.
abbrev pub is_wide : ℕ → List Row → Bool
is_wide n [] = true
is_wide n (row ∷ rows) = leb n (length row) && is_wide n rows

cell-drop :
    (row : Row) (col : ℕ)
    → col < length row
    → (c : Option Bytes) × (cell row col ≡ some c) × (drop col row ≡ c ∷ drop (col + 1) row)
unfolding cell
cell-drop [] col h = absurd (omega (arith, h))
cell-drop (c ∷ row) zero h = (c, refl, refl)
cell-drop (c ∷ row) (suc col) h =
    let (d, e, f) = cell-drop row col (omega (arith, h)) in
    let next : suc col + 1 ≡ suc (col + 1) = omega arith in (d, e, rw next f)

my_sql-columns :
    {C R : Type 0} (client : MySqlClient C R) (db : MySqlStruct R) (row : Row) (n col : ℕ)
    → db.row ≡ some row
    → col + n ≤ length row
    → columns (my_sql_driver client) db n col ≡ some (take n (drop col row))
unfolding columns my_sql_driver db_col_text
my_sql-columns client db row zero col e h = refl
my_sql-columns client db row (suc n) col e h =
    let (c, f, g) = cell-drop row col (omega (arith, h)) in
    rw (e, f, g, my_sql-columns client db row n (col + 1) e (omega (arith, h)))

-- With a library that fetches the rows of a result in their order: the loop over a result of MySQL,
-- of which no row has fewer columns than are read, ends one round behind the last row, and has read
-- these columns of all rows, in their order.
my_sql-fetch_loop :
    {C R : Type 0} (client : MySqlClient C R) (rows_of : R → List Row)
    → IsFetching client rows_of
    → (n : ℕ) (rows : List Row) (db : MySqlStruct R) (r : R) → db.res ≡ some r
    → rows_of r ≡ rows
    → is_wide n rows ≡ true
    → (last : MySqlStruct R) × (fetch_loop (length rows + 1) (my_sql_driver client) n db
        ≡ some (last, map (take n) rows))
unfolding fetch_loop my_sql_driver db_fetch_row
my_sql-fetch_loop client rows_of law n [] db r e f w =
    let next = (rw f at (law r)) in
    (record { res = some (client.fetch_row r).0; row = none }, rw (e, next))
my_sql-fetch_loop client rows_of law n (row ∷ rows) db r e f w =
    let (p, q) = (rw f at (law r)) in
    let after : MySqlStruct _ = record { res = some (client.fetch_row r).0; row = some row } in
    let (last, g) =
      my_sql-fetch_loop client rows_of law n rows after (client.fetch_row r).0 refl q
        (ground (arith, w)) in
    let read = my_sql-columns client after row n 0 refl (ground (arith, w)) in
    let fuel : suc (length rows) + 1 ≡ suc (length rows + 1) = omega arith in
    (last, rw (fuel, e, p, read, g))
