-- ===== src/PgSql/Command.antt =====
-- The commands in parse_request of src/pgsql/pgsql_con.cpp. `bytes` is the buffer from the packet on.
pub mod Simple
pub mod Returns
use greensql_fw.Base.{
  ℕ, zero, suc, ◌+◌, ◌-◌, Bool, true, false, not, ◌&&◌, ◌||◌, ltb, leb, ◌==◌, Bytes, [], ◌∷◌, ◌++◌,
  Option, none, some, length, char_at, take, drop, equal, if◌then◌else◌,
}
use greensql_fw.Connection.Server.{Server}
use greensql_fw.Connection.Run.{Run, done, closes, undefined, endless, then_run}
use greensql_fw.PgSql.State.{PgSqlConnection, c_string, be16, be32, check_original}
use greensql_fw.PgSql.Startup.{parse_startup}

abbrev pub cancel : Bytes
cancel = 0 ∷ 0 ∷ 0 ∷ 0x0F ∷ 0x04 ∷ 0xD2 ∷ 0x16 ∷ 0xDF ∷ []

-- `request_size == 16 && memcmp(data, PGSQL_CANCEL, 8)`: memcmp answers 0 for equal texts.
pub is_cancel : Bytes → ℕ → Bool
is_cancel bytes request_size = request_size == 16 && not (equal (take 8 bytes) cancel)

-- The commands that are let through at once: quit, close, copy data, execute, flush, function call,
-- sync, copy done, copy fail and describe.
unfoldable pub is_simple : ℕ → Bool
is_simple type =
    type == 0x58
    || type == 0x43
    || type == 0x64
    || type == 0x45
    || type == 0x48
    || type == 0x46
    || type == 0x53
    || type == 0x63
    || type == 0x66
    || type == 0x44

-- PGSQL_QUERY.
pub parse_query : Server → PgSqlConnection → Bytes → Run (PgSqlConnection × Bool)
parse_query server s bytes =
    then_run (c_string bytes 5)
      (check_original server (record s { long_response = true; long_response_data = false }))

-- PGSQL_PARSE: the name of the statement, and its text behind it.
pub parse_parse : Server → PgSqlConnection → Bytes → Run (PgSqlConnection × Bool)
parse_parse server s bytes =
    if not (char_at bytes 1 == 0)
    then done (s, false)
    else then_run (c_string bytes 5)
        (λ name. then_run (c_string bytes (length name + 6)) (check_original server s))

abbrev readable : Bytes → ℕ → Run (Unit {0})
readable bytes i = if ltb (length bytes) i then undefined else done tt

-- A list of `n` format codes at `ind`: the index behind it.
pub format_codes : Bytes → ℕ → ℕ → Run ℕ
format_codes bytes n ind =
    if n == 0 then done ind else then_run (readable bytes (ind + n - 1)) (λ u. done (ind + n))

-- The parameters of PGSQL_BIND: a length, and so many bytes, or none for NULL.
pub parameters : Bytes → ℕ → ℕ → Run ℕ
parameters bytes zero ind = done ind
parameters bytes (suc n) ind =
    let num = be32 bytes ind in
    let null = parameters bytes n (ind + 4) in
    let value = parameters bytes n (ind + 4 + num) in
    then_run (readable bytes (ind + 3)) (λ u. if num == 4294967295 then null else value)

-- PGSQL_BIND: the name of the statement; all else is read for the log only. The source goes on
-- behind as many bytes as the name of the statement has, whatever the name of the portal.
pub parse_bind : PgSqlConnection → Bytes → Run (PgSqlConnection × Bool)
parse_bind s bytes = then_run (c_string bytes 5) (λ portal.
    then_run (c_string bytes (length portal + 6)) (λ statement.
      let ind = length statement + 6 in
      then_run (readable bytes (ind + 1)) (λ u.
        then_run (format_codes bytes (be16 bytes ind) (ind + 2)) (λ behind.
          let count = if be16 bytes ind == 0 then behind + 1 else behind in
          then_run (readable bytes (count + 1)) (λ u.
            then_run (parameters bytes (be16 bytes count) (count + 2)) (λ formats.
              then_run (readable bytes (formats + 1)) (λ u.
                then_run (format_codes bytes (be16 bytes formats) (formats + 2)) (λ last.
                  then_run (readable bytes (last + 1))
                    (λ u. done (record s { original_query = statement }, false))))))))))

-- The two switches on the type of the command.
pub parse_command : Server → PgSqlConnection → Bytes → Run (PgSqlConnection × Bool)
parse_command server s bytes =
    let type = char_at bytes 0 in
    if type == 0x70
    then done (record s { second_packet = true }, false)
    else if is_simple type
    then done (s, false)
    else if type == 0x51
    then parse_query server s bytes
    else if type == 0x42
    then parse_bind s bytes
    else if type == 0x50
    then parse_parse server s bytes
    else done (s, false)

-- The test of `first_request`. The second result is whether `hasResponse` is set.
pub parse_packet :
    (first_request : Bool) → Server → PgSqlConnection → Bytes → ℕ → Run (PgSqlConnection × Bool)
parse_packet true server s bytes request_size =
    then_run (parse_startup server s bytes request_size) (λ next. done (next, false))
parse_packet false server s bytes request_size =
    if is_cancel bytes request_size then done (s, false) else parse_command server s bytes

-- parse_request, the method for one packet.
unfoldable pub parse_one : Server → PgSqlConnection → Bytes → ℕ → Run (PgSqlConnection × Bool)
unfolding parse_packet is_cancel is_simple parse_command parse_query parse_bind parse_parse
    format_codes parameters c_string
parse_one server s bytes request_size = parse_packet s.first_request server s bytes request_size
