-- ===== src/MySql/State.antt =====
-- The members of MySQLConnection and Connection that the requests of a client read and change
-- (src/mysql/mysql_con.hpp, src/connection.hpp), and the texts in a packet.
use greensql_fw.Base.{
  ◌>>=◌, ℕ, ◌+◌, ◌-◌, ◌*◌, Bool, true, false, not, ◌==◌, Bytes, [], ◌∷◌, ◌++◌, List, Option, some,
  codes, length, char_at, if◌then◌else◌,
}
use greensql_fw.Normalization.Loops.{skip_while}
use greensql_fw.Permissions.{DbPermObj}
use greensql_fw.DbMap.{dbmap_find}
use greensql_fw.Connection.{Action, check_query}
use greensql_fw.Connection.Server.{Server}
use greensql_fw.Buffer.{append}

-- `actions` is what check_query did for its effect so far.
pub record MySqlConnection : Type 0 where
  pub first_request : Bool
  pub second_packet : Bool
  pub mysql41 : Bool
  pub long_response : Bool
  pub long_response_data : Bool
  pub start_response : Bool
  pub last_command_id : ℕ
  pub db_name : Bytes
  pub db_new_name : Bytes
  pub db_user : Bytes
  pub db : Option DbPermObj
  pub original_query : Bytes
  pub response_in : Bytes
  pub response_out : Bytes
  pub actions : List Action

-- `(data[2]<<16 | data[1] << 8 | data[0]) + 4`.
abbrev pub packet_size : Bytes → ℕ
packet_size bytes = char_at bytes 2 * 65536 + char_at bytes 1 * 256 + char_at bytes 0 + 4

-- `strlen(data+i)`: the buffer ends with a zero.
pub strlen : Bytes → ℕ → ℕ
strlen bytes i = skip_while (λ c. not (c == 0)) bytes i - i

-- `dbmap_find(iProxyId, db_name, "mysql")`.
pub find_db : Server → Bytes → Option DbPermObj
find_db server db_name = dbmap_find server.map server.proxy_id db_name (codes "mysql")

-- blockResponse: an answer of the server that says OK.
abbrev pub block_response : Bytes → Bytes
block_response response = response ++ (7 ∷ 0 ∷ 0 ∷ 1 ∷ 0 ∷ 0 ∷ 0 ∷ 2 ∷ 0 ∷ 0 ∷ 0 ∷ [])

-- The branch of a query that check_query does not allow. The buffers are given the answer.
unfoldable pub block : MySqlConnection → MySqlConnection
block s =
    let response = block_response [] in
    let cleared = record s { original_query = [] } in
    if not (length s.response_in == 0)
    then record cleared { response_in = append s.response_in response (length response) }
    else record cleared { response_out = append s.response_out response (length response) }

-- Behind check_query: whether it allows the query. The second result is `hasResponse`.
unfoldable pub settle : Bool → MySqlConnection → MySqlConnection × Bool
settle true s = (s, false)
settle false s = (block s, true)

-- check_query on `original_query`, where it leaves the pattern, with what follows. `none` stands for undefined behaviour: of the
-- normalization, or for want of an object of permissions.
unfoldable pub check_original : Server → MySqlConnection → Bytes → Option (MySqlConnection × Bool)
unfolding settle block
check_original server s query = do
  db ← s.db
  o ← check_query (record server.context { db = db }) query
  some (
      settle o.allowed (record s {
        original_query = o.pattern;
        start_response = true;
        actions = s.actions ++ o.actions;
      }))
