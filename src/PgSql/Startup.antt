-- ===== src/PgSql/Startup.antt =====
-- The startup message: the branch of the first request in parse_request and
-- pg_parse_protocol_params of src/pgsql/pgsql_con.cpp.
use greensql_fw.Base.{
  ℕ, zero, suc, ◌+◌, ◌-◌, Bool, true, false, not, ◌==◌, ltb, Bytes, [], ◌∷◌, ◌++◌, codes, length,
  char_at, take, drop, equal, substr, if◌then◌else◌,
}
use greensql_fw.Normalization.Loops.{skip_while}
use greensql_fw.Connection.Server.{Server}
use greensql_fw.Connection.Run.{Run, done, closes, then_run, of_option}
use greensql_fw.PgSql.State.{PgSqlConnection, find_db}

-- `while (ind < request_size && data[ind] != '\0') ++ind`.
pub skip_text : Bytes → ℕ → ℕ → ℕ
skip_text bytes request_size ind = skip_while (λ c. not (c == 0)) (take request_size bytes) ind

-- What pg_parse_protocol_params leaves: the index, its result, and the value that it read. The name
-- of the option is compared with the start of the packet.
pub record Param : Type 0 where
  pub ind : ℕ
  pub found : Bool
  pub value : Bytes

pub protocol_param : Bytes → ℕ → ℕ → Bytes → Param
protocol_param bytes request_size ind option =
    let text = ind + (length option + 1) in
    let end = skip_text bytes request_size text in
    if ltb request_size (ind + length option)
    then record { ind = request_size; found = false; value = [] }
    else if equal (take (length option) bytes) option
    then record { ind = end; found = false; value = [] }
    else record { ind = end + 1; found = true; value = substr bytes text (end - text) }

-- `if (i > 0) result.assign(...)`.
abbrev pub assigned : Bytes → Param → Bytes
assigned old p = if length p.value == 0 then old else p.value

pub user_param : PgSqlConnection → Bytes → ℕ → ℕ → ℕ × PgSqlConnection
user_param s bytes request_size ind =
    let p = protocol_param bytes request_size ind (codes "user") in
    (p.ind, record s { db_user = assigned s.db_user p })

pub database_param : Server → PgSqlConnection → Bytes → ℕ → ℕ → ℕ × PgSqlConnection
database_param server s bytes request_size ind =
    let p = protocol_param bytes request_size ind (codes "database") in
    let name = assigned s.db_name p in
    (p.ind, if p.found then record s { db_name = name; db = find_db server name } else s)

pub options_param : PgSqlConnection → Bytes → ℕ → ℕ → ℕ × PgSqlConnection
options_param s bytes request_size ind =
    let p = protocol_param bytes request_size ind (codes "options") in
    (p.ind, record s { db_options = assigned s.db_options p })

pub other_param : PgSqlConnection → Bytes → ℕ → ℕ → ℕ × PgSqlConnection
other_param s bytes request_size ind =
    let end = skip_text bytes request_size ind in
    (if char_at bytes end == 0 then end + 1 else end, s)

-- The switch on the first letter of a parameter.
pub one_param : Server → PgSqlConnection → Bytes → ℕ → ℕ → ℕ × PgSqlConnection
one_param server s bytes request_size ind =
    let c = char_at bytes ind in
    if c == b'u'
    then user_param s bytes request_size ind
    else if c == b'd'
    then database_param server s bytes request_size ind
    else if c == b'o'
    then options_param s bytes request_size ind
    else other_param s bytes request_size ind

-- The loop over the parameters.
pub params_loop : ℕ → Server → PgSqlConnection → Bytes → ℕ → ℕ → PgSqlConnection
params_loop zero server s bytes request_size ind = s
params_loop (suc fuel) server s bytes request_size ind =
    let (next, s') = one_param server s bytes request_size ind in
    let rest = params_loop fuel server s' bytes request_size next in
    if ltb ind request_size then rest else s

-- The object for the name that was read, and no startup any more.
pub finish_startup : Server → PgSqlConnection → Run PgSqlConnection
finish_startup server s = then_run (of_option s.db) (λ db.
    done
      (record (if not (equal db.db_name s.db_name)
        then record s { db = find_db server s.db_name }
        else s) { first_request = false }))

-- `proto_version.append('.', 1)` appends 46 bytes of the value 1: its arguments are swapped.
pub version_of : Bytes → Bytes
version_of bytes = take 2 (drop 4 bytes) ++ (copies 46 ++ take 2 (drop 6 bytes))
  where
    copies : ℕ → Bytes
    copies zero = []
    copies (suc n) = 1 ∷ copies n

unfoldable pub parse_startup : Server → PgSqlConnection → Bytes → ℕ → Run PgSqlConnection
unfolding params_loop one_param user_param database_param options_param other_param protocol_param
    skip_text finish_startup version_of substr
parse_startup server s bytes request_size =
    let fresh = record s {
      db_name = [];
      db_user = [];
      proto_version = s.proto_version ++ version_of bytes;
    } in
    if ltb request_size 13
    then closes
    else finish_startup server (params_loop request_size server fresh bytes request_size 8)
