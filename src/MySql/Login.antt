-- ===== src/MySql/Login.antt =====
-- The login packet in ParseRequestPacket of src/mysql/mysql_con.cpp, which the first request holds.
-- A call returns or falls through to the end of the branch; the value that it returns is not looked
-- at by its caller. `none` stands for undefined behaviour: a null pointer, or a read behind the
-- buffer.
use greensql_fw.Base.{
  ◌>>=◌, ℕ, ◌+◌, ◌-◌, ◌/◌, ◌%◌, Bool, true, false, not, ◌&&◌, ◌||◌, ltb, leb, ◌==◌, Bytes, [],
  Option, some, char_at, take, drop, equal, substr, if◌then◌else◌,
}
use greensql_fw.Normalization.Loops.{skip_while}
use greensql_fw.Connection.Server.{Server}
use greensql_fw.MySql.State.{MySqlConnection, strlen, find_db}

abbrev at_most : ℕ → ℕ → ℕ
at_most n limit = if ltb limit n then limit else n

-- Bit 0x200 of the flags: MYSQL_CON_PROTOCOL_V41.
pub is_v41 : Bytes → Bool
is_v41 bytes = (char_at bytes 5 / 2) % 2 == 1

-- `db_name.append(...)` on the cleared name, and the object for it.
abbrev pub set_db_name : Server → MySqlConnection → Bytes → MySqlConnection
set_db_name server s name = record s { db_name = name; db = find_db server name }

-- The end of the branch: the object for the name, and no login any more.
pub finish_login : Server → MySqlConnection → Option MySqlConnection
finish_login server s = do
  db ← s.db
  let named =
      if not (equal db.db_name s.db_name) then record s { db = find_db server s.db_name } else s
  some (record named { first_request = false; second_packet = true })

-- Protocol 4.1: a name behind 36 bytes, a password with its length in front, and a database.
pub login_v41 : Server → MySqlConnection → Bytes → ℕ → Option MySqlConnection
login_v41 server s bytes request_size =
    let user_len = strlen bytes 36 in
    let user = record s { db_user = take user_len (drop 36 bytes) } in
    let pwd_size = char_at bytes (user_len + 37) in
    let free_at = user_len + 38 in
    let free_name =
      take
        (if ltb request_size (free_at + 1)
          then strlen bytes free_at
          else at_most (strlen bytes free_at) (request_size - (free_at + 1)))
        (drop free_at bytes) in
    let pwd_at = user_len + pwd_size + 38 in
    let pwd_name =
      take (at_most (strlen bytes pwd_at) (request_size - (pwd_at + 1))) (drop pwd_at bytes) in
    if ltb request_size (user_len + 36)
    then finish_login server (record s { db_user = take (request_size - 37) (drop 36 bytes) })
    else if leb request_size (user_len + 37)
    then some s
    else if pwd_size == 0
    then finish_login server
        (if ltb 0 (strlen bytes free_at) then set_db_name server user free_name else user)
    else if ltb pwd_at request_size
    then finish_login server (set_db_name server user pwd_name)
    else finish_login server user

-- Older protocols: a name behind 9 bytes, a password and a database, each up to a zero.
pub login_old : Server → MySqlConnection → Bytes → ℕ → Option MySqlConnection
login_old server s bytes request_size =
    let user_len = at_most (strlen bytes 9) (request_size - 9) in
    let user = record s { db_user = take user_len (drop 9 bytes) } in
    let over = record user { first_request = false } in
    let packet = take request_size bytes in
    let pwd_end = skip_while (λ c. not (c == 0)) packet (user_len + 10) in
    let name_end = skip_while (λ c. not (c == 0)) packet (pwd_end + 1) in
    if ltb request_size (user_len + 10)
    then some over
    else if pwd_end == request_size || (pwd_end + 1) == request_size
    then some over
    else finish_login server
        (set_db_name server user (substr bytes (pwd_end + 1) (name_end - (pwd_end + 1))))

unfoldable pub parse_login : Server → MySqlConnection → Bytes → ℕ → Option MySqlConnection
unfolding login_v41 login_old finish_login is_v41 substr
parse_login server s bytes request_size =
    let fresh = record s { mysql41 = s.mysql41 || is_v41 bytes; db_name = []; db_user = [] } in
    if ltb request_size 10
    then some s
    else if is_v41 bytes && ltb 36 request_size
    then login_v41 server fresh bytes request_size
    else if ltb 10 request_size
    then login_old server fresh bytes request_size
    else finish_login server fresh
