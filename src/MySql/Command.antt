-- ===== src/MySql/Command.antt =====
-- The commands in ParseRequestPacket of src/mysql/mysql_con.cpp. `bytes` is the buffer from the
-- packet on. `none` stands for an exception of std::string::append on a size that wrapped round, and
-- for undefined behaviour.
pub mod Query
use greensql_fw.Base.{
  ◌>>=◌, ℕ, ◌+◌, ◌-◌, Bool, true, false, not, ◌&&◌, ◌||◌, ltb, leb, ◌==◌, Bytes, [], ◌∷◌, ◌++◌,
  Option, none, some, length, codes, char_at, take, drop, equal, if◌then◌else◌,
}
use greensql_fw.Connection.Server.{Server}
use greensql_fw.MySql.State.{MySqlConnection, strlen, find_db, check_original}
use greensql_fw.MySql.Login.{parse_login}

-- `append((const char *)data+5, request_size-5)`.
abbrev pub argument : Bytes → ℕ → Option Bytes
argument bytes request_size =
    if ltb request_size 5 then none else some (take (request_size - 5) (drop 5 bytes))

-- MYSQL_QUERY and MYSQL_STMT_PREPARE.
pub parse_query : Server → MySqlConnection → Bytes → ℕ → Option (MySqlConnection × Bool)
parse_query server s bytes request_size =
    if char_at bytes 5 == 0
    then some (s, false)
    else argument bytes request_size >>= check_original server s

-- MYSQL_CREATE_DB, MYSQL_DROP_DB and MYSQL_FIELD_LIST, checked as the statements that they stand for.
pub parse_emulated : Server → MySqlConnection → Bytes → Bytes → ℕ → Option (MySqlConnection × Bool)
parse_emulated server s statement bytes request_size = do
  name ← argument bytes request_size
  check_original server s (statement ++ (name ++ codes "'"))

-- MYSQL_DB: the name is kept until the server accepts it.
pub parse_db : MySqlConnection → Bytes → ℕ → Option (MySqlConnection × Bool)
parse_db s bytes request_size = do
  name ← argument bytes request_size
  some (record s { db_new_name = name }, false)

-- MYSQL_CHANGE_USER. The new name of the database is taken from the start of the packet.
pub parse_change_user : Server → MySqlConnection → Bytes → ℕ → Option (MySqlConnection × Bool)
parse_change_user server s bytes request_size =
    let max_user_len =
      if not (ltb request_size 5) && ltb (request_size - 5) 255 then request_size - 5 else 255 in
    let user_len = if ltb max_user_len (strlen bytes 5) then max_user_len else strlen bytes 5 in
    let pwd_len = if s.mysql41 then char_at bytes (5 + user_len) else strlen bytes (5 + user_len) in
    let at = 5 + user_len + pwd_len in
    let name_len =
      if ltb request_size (strlen bytes at + at) then request_size - at else strlen bytes at in
    let name = take name_len bytes in
    let user = record s { db_name = []; db_user = take max_user_len (drop 5 bytes) } in
    if ltb (length bytes + 1) (5 + max_user_len)
    then none
    else if not (ltb at request_size)
    then some (user, false)
    else if not (equal [] name)
    then some (record user { db_new_name = name; db_name = name; db = find_db server name }, false)
    else some (record user { db_new_name = name }, false)

-- The chain of `if` on the type of the command. The others are only logged.
pub parse_command : Server → MySqlConnection → Bytes → ℕ → Option (MySqlConnection × Bool)
parse_command server s bytes request_size =
    let type = char_at bytes 4 in
    if type == 2
    then parse_db s bytes request_size
    else if type == 3
    then parse_query server s bytes request_size
    else if type == 5 && ltb 5 request_size
    then parse_emulated server s (codes "create database '") bytes request_size
    else if type == 6 && ltb 5 request_size
    then parse_emulated server s (codes "drop database '") bytes request_size
    else if type == 4 && ltb 5 request_size
    then parse_emulated server s (codes "show fields from '") bytes request_size
    else if type == 10
    then check_original server s (codes "show processlist")
    else if type == 17
    then parse_change_user server s bytes request_size
    else if type == 22
    then parse_query server s bytes request_size
    else some (s, false)

abbrev pub is_long : ℕ → Bool
is_long type = type == 3 || type == 4 || type == 10 || type == 28

-- What precedes the chain: the command, and whether its answer is long.
unfoldable pub begin_command : MySqlConnection → ℕ → MySqlConnection
begin_command s type =
    let last = record s { last_command_id = type } in
    if is_long type then record last { long_response = true; long_response_data = false } else last

-- The test of `first_request`.
pub parse_packet :
    (first_request : Bool) → Server → MySqlConnection → Bytes → ℕ → Option (MySqlConnection × Bool)
parse_packet true server s bytes request_size = do
  next ← parse_login server s bytes request_size
  some (next, false)
parse_packet false server s bytes request_size =
    parse_command server (begin_command s (char_at bytes 4)) bytes request_size

-- The second result is whether `hasResponse` is set.
unfoldable pub parse_request_packet :
    Server → MySqlConnection → Bytes → ℕ → Option (MySqlConnection × Bool)
unfolding parse_packet parse_command parse_query parse_db parse_emulated parse_change_user
    begin_command
parse_request_packet server s bytes request_size =
    parse_packet s.first_request server s bytes request_size
