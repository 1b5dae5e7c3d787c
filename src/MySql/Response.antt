-- ===== src/MySql/Response.antt =====
-- parseResponse and ParseResponsePacket of src/mysql/mysql_con.cpp: what the server answers.
pub mod Relay
pub mod Database
mod Tests
use greensql_fw.Base.{
  ◌>>=◌, ℕ, zero, suc, ◌+◌, ◌-◌, ◌*◌, ◌/◌, ◌%◌, Bool, true, false, not, ◌&&◌, ◌||◌, ltb, leb, ◌==◌,
  Bytes, [], ◌∷◌, ◌++◌, Option, none, some, length, char_at, set, take, drop, if◌then◌else◌,
}
use greensql_fw.Buffer.{pop}
use greensql_fw.Connection.Server.{Server}
use greensql_fw.MySql.State.{MySqlConnection, packet_size, strlen, find_db}

-- What the loop of parseResponse works on: the connection, `response_in`, `response`, the version
-- that the server names, and whether `response_in` was cut while `data` still points to it.
pub record Responses : Type 0 where
  pub connection : MySqlConnection
  pub response_in : Bytes
  pub response : Bytes
  pub db_srv_version : Bytes
  pub is_cut : Bool

-- `server_flags` without MYSQL_CON_COMPRESS and MYSQL_CON_SSL, which are the bits 0x20 and 0x800.
pub clear_flags : ℕ → ℕ
clear_flags flags =
    let plain = if flags / 32 % 2 == 1 then flags - 32 else flags in
    if plain / 2048 % 2 == 1 then plain - 2048 else plain

-- The branch of the first packet of the server. A write behind the end of `response` is undefined.
pub greeting : Responses → Bytes → ℕ → Option Responses
greeting r bytes size =
    let srv_len = if ltb (size - 5) (strlen bytes 5) then size - 5 else strlen bytes 5 in
    let named = record r { db_srv_version = r.db_srv_version ++ take srv_len (drop 5 bytes) } in
    let flags = clear_flags (char_at bytes (srv_len + 20) * 256 + char_at bytes (srv_len + 19)) in
    let popped = pop r.response_in r.response size false in
    let response =
      set (set popped.0 (srv_len + 19) (flags % 256)) (srv_len + 20) (flags / 256 % 256) in
    if ltb size (srv_len + 20)
    then some named
    else if leb (length popped.0) (srv_len + 20)
    then none
    else some (record named { response = response; response_in = popped.1; is_cut = true })

-- An error of the server.
pub is_error : ℕ → ℕ → ℕ → Bool
is_error type size max = type == 255 && ltb 7 size && ltb size 600 && leb size max

-- The last command, to change the database, is done: the settings of the new one apply.
pub change_db : Server → MySqlConnection → MySqlConnection
change_db server s =
    if s.last_command_id == 2
    then record s { db_name = s.db_new_name; db = find_db server s.db_new_name }
    else s

-- ParseResponsePacket on the text from a packet on. It always returns true, and the size that it
-- passes on is that of the packet.
pub parse_response_packet : Server → Responses → Bytes → ℕ → Option Responses
parse_response_packet server r bytes size =
    if r.connection.first_request && ltb 23 size && leb size (length bytes)
    then greeting r bytes size
    else if is_error (char_at bytes 4) size (length bytes)
    then some r
    else some (record r { connection = change_db server r.connection })

-- The loop over packets that are looked at. `data` still points to the old text when the first
-- packet has been cut off: a look at it is undefined behaviour.
pub look_loop : ℕ → Server → Bytes → Responses → ℕ → ℕ → Option (Responses × ℕ)
look_loop zero server bytes r start size = some (r, start)
look_loop (suc fuel) server bytes r start size = do
  next ← parse_response_packet server r (drop start bytes) size
  let after = record next { connection = record next.connection { second_packet = false } }
  let behind = start + size
  let more = packet_size (drop behind bytes)
  let rest = look_loop fuel server bytes after behind more
  if not (ltb (behind + 5) (length bytes))
      then some (after, behind)
      else if after.is_cut
      then none
      else if ltb (length bytes) (behind + more)
      then some (after, behind)
      else rest

-- The loop over packets that only pass through.
pub relay_loop : ℕ → Bytes → ℕ → ℕ → ℕ
relay_loop zero bytes start size = start
relay_loop (suc fuel) bytes start size =
    let behind = start + size in
    let rest = relay_loop fuel bytes behind (packet_size (drop behind bytes)) in
    if ltb (length bytes) behind
    then start
    else if ltb (behind + 5) (length bytes)
    then rest
    else behind

-- Whether the packets are looked at.
pub is_looked_at : MySqlConnection → Bytes → Bool
is_looked_at s bytes =
    (s.start_response && char_at bytes 4 == 255)
    || s.last_command_id == 2
    || s.first_request
    || s.second_packet

pub waiting : MySqlConnection → Bytes → Bytes → Bytes → Responses
waiting s response_in response version = record {
  connection = s;
  response_in = response_in;
  response = response;
  db_srv_version = version;
  is_cut = false;
}

-- `if (response_in.size()) response_in.pop(response, start)`.
pub pop_rest : Responses × ℕ → Responses
pop_rest (r, start) =
    let popped = pop r.response_in r.response start false in
    if length r.response_in == 0
    then r
    else record r { response_in = popped.1; response = popped.0 }

-- The part of parseResponse behind the test for packets that only pass through.
pub look_at : Server → MySqlConnection → Bytes → Bytes → Bytes → Option Responses
look_at server s response_in response version =
    let popped = pop response_in response (length response_in) false in
    if ltb (length response_in) 7
    then some (
        if s.first_request || s.second_packet
        then waiting s popped.1 popped.0 version
        else waiting s response_in response version)
    else if ltb (length response_in) (packet_size response_in)
    then some (pop_rest (waiting s response_in response version, 0))
    else look_loop (length response_in) server response_in (waiting s response_in response version)
        0 (packet_size response_in)
      >>= (λ r. some (pop_rest r))

-- `none` stands for undefined behaviour. `version` is what the server named before.
unfoldable pub parse_response : Server → MySqlConnection → Bytes → Bytes → Bytes → Option Responses
unfolding look_at look_loop relay_loop is_looked_at pop_rest parse_response_packet change_db
    greeting clear_flags is_error waiting pop
parse_response server s response_in response version =
    let start = relay_loop (length response_in) response_in 0 (packet_size response_in) in
    let popped = pop response_in response start false in
    let settled = record s { start_response = false } in
    if ltb (length response_in) 5
    then some (waiting s response_in response version)
    else if not (is_looked_at s response_in)
    then some (waiting settled popped.1 popped.0 version)
    else look_at server settled response_in response version
