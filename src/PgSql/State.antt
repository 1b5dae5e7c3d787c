-- ===== src/PgSql/State.antt =====
-- The members of PgSQLConnection and Connection that the packets of a client and of a server read
-- and change (src/pgsql/pgsql_con.hpp, src/connection.hpp), and the integers and texts in a
-- packet.
use greensql_fw.Base.{
  ℕ, ◌+◌, ◌-◌, ◌*◌, ◌%◌, Bool, true, false, not, ◌==◌, ltb, Bytes, [], ◌∷◌, ◌++◌, List, Option,
  codes, length, char_at, take, drop, if◌then◌else◌,
}
use greensql_fw.Normalization.Loops.{skip_while}
use greensql_fw.Permissions.{DbPermObj}
use greensql_fw.DbMap.{dbmap_find}
use greensql_fw.Connection.{Action, check_query}
use greensql_fw.Connection.Server.{Server}
use greensql_fw.Buffer.{append}
use greensql_fw.Connection.Run.{Run, done, undefined, then_run, of_option}

-- `actions` is what check_query did for its effect so far.
pub record PgSqlConnection : Type 0 where
  pub first_request : Bool
  pub first_response : Bool
  pub second_packet : Bool
  pub long_response : Bool
  pub long_response_data : Bool
  pub db_name : Bytes
  pub db_user : Bytes
  pub db_options : Bytes
  pub proto_version : Bytes
  pub db : Option DbPermObj
  pub original_query : Bytes
  pub response_in : Bytes
  pub response_out : Bytes
  pub actions : List Action

abbrev pub u64_mod : ℕ
u64_mod = 18446744073709551616

-- Four bytes from `i` on, the high one first.
abbrev pub be32 : Bytes → ℕ → ℕ
be32 bytes i =
    char_at bytes i * 16777216
    + char_at bytes (i + 1) * 65536
    + char_at bytes (i + 2) * 256
    + char_at bytes (i + 3)

abbrev pub be16 : Bytes → ℕ → ℕ
be16 bytes i = char_at bytes i * 256 + char_at bytes (i + 1)

-- A size_t from the `int` with the bits `x`: a negative one wraps round.
abbrev pub to_size : ℕ → ℕ
to_size x = if ltb x 2147483648 then x else x + 18446744069414584320

-- `(data[i+1] << 24 | ...) + 1` as a size_t, where the overflow of the sum wraps round as well.
unfoldable pub packet_size : Bytes → ℕ → ℕ
packet_size bytes i = to_size ((be32 bytes (i + 1) + 1) % 4294967296)

-- The bytes up to the first zero, from `i` on; the buffer ends with a zero.
unfoldable pub c_string : Bytes → ℕ → Run Bytes
c_string bytes i =
    if ltb (length bytes) i
    then undefined
    else done (take (skip_while (λ c. not (c == 0)) bytes i - i) (drop i bytes))

-- `dbmap_find(iProxyId, db_name, "pgsql")`.
pub find_db : Server → Bytes → Option DbPermObj
find_db server db_name = dbmap_find server.map server.proxy_id db_name (codes "pgsql")

-- An answer that stands for the server's: behind what it sent before, or at once for the client.
unfoldable pub answer_client : PgSqlConnection → Bytes → PgSqlConnection
answer_client s response =
    if not (length s.response_in == 0)
    then record s { response_in = append s.response_in response (length response) }
    else record s { response_out = append s.response_out response (length response) }

-- blockResponse: an empty row description, `SELECT`, and ready for the next query.
abbrev pub block_response : Bytes → Bytes
block_response response =
    response
    ++ (b'T' ∷ 0 ∷ 0 ∷ 0 ∷ 6 ∷ 0 ∷ 0 ∷ b'C' ∷ 0 ∷ 0 ∷ 0 ∷ 11 ∷ b'S' ∷ b'E' ∷ b'L' ∷ b'E' ∷ b'C'
        ∷ b'T' ∷ 0 ∷ b'Z' ∷ 0 ∷ 0 ∷ 0 ∷ 5 ∷ 73 ∷ [])

-- Behind check_query: whether it allows the query. The second result is `hasResponse`.
unfoldable pub settle : Bool → PgSqlConnection → PgSqlConnection × Bool
unfolding answer_client
settle true s = (s, false)
settle false s = (answer_client (record s { original_query = [] }) (block_response []), true)

-- check_query on `original_query`, where it leaves the pattern, with what follows. What it does not answer is undefined behaviour
-- of the normalization.
unfoldable pub check_original : Server → PgSqlConnection → Bytes → Run (PgSqlConnection × Bool)
unfolding settle
check_original server s query = then_run (of_option s.db) (λ db.
    then_run (of_option (check_query (record server.context { db = db }) query)) (λ o. done (
      settle o.allowed
        (record s { original_query = o.pattern; actions = s.actions ++ o.actions }))))
