-- ===== src/MySql.antt =====
-- parseRequest of src/mysql/mysql_con.cpp: the packets in the buffer of a client's requests are
-- checked and handed on to the server. `none` stands for an exception or undefined behaviour in a
-- packet.
pub mod State
pub mod Login
pub mod Command
pub mod Forward
pub mod Response
pub mod Queries
pub mod Blocked
pub mod Fuel
mod Tests
use greensql_fw.Base.{
  ◌>>=◌, ℕ, zero, suc, ◌+◌, Bool, true, false, ◌||◌, ltb, leb, ◌==◌, Bytes, [], Option, none, some,
  length, if◌then◌else◌,
}
use greensql_fw.Buffer.{pop}
use greensql_fw.Connection.Server.{Server}
use greensql_fw.MySql.State.{MySqlConnection, packet_size}
use greensql_fw.MySql.Command.{parse_request_packet}

-- What parseRequest leaves: the connection, its `request_in`, the text for the server, and whether
-- there is an answer for the client already.
pub record Requests : Type 0 where
  pub connection : MySqlConnection
  pub request_in : Bytes
  pub request : Bytes
  pub has_response : Bool

-- The loop, from the state before a packet: the number of bytes that are done with stands last. The
-- source takes `data` and the size from the start of the buffer again, not from `start`.
pub packet_loop :
    ℕ → Server → Bytes → MySqlConnection → Bool → ℕ → Option (MySqlConnection × Bool × ℕ)
packet_loop zero server request_in s has_response start = some (s, has_response, start)
packet_loop (suc fuel) server request_in s has_response start = do
  (next, answered) ← parse_request_packet server s request_in (packet_size request_in)
  let full_size = length request_in
  let behind = start + packet_size request_in
  let has = has_response || answered
  let rest = packet_loop fuel server request_in next has behind
  if behind == full_size
        || ltb full_size (behind + 7)
        || ltb full_size (behind + packet_size request_in)
      then some (next, has, behind)
      else rest

unfoldable pub parse_request : Server → MySqlConnection → Bytes → Bytes → Option Requests
unfolding packet_loop pop
parse_request server s request_in request =
    let waiting : Requests = record {
      connection = s;
      request_in = request_in;
      request = request;
      has_response = false;
    } in
    if ltb (length request_in) 3
    then some waiting
    else if ltb (length request_in) (packet_size request_in)
    then some waiting
    else packet_loop (length request_in) server request_in s false 0 >>= (λ (next, has, start).
      let popped = pop request_in request start false in
      some
        record { connection = next; request_in = popped.1; request = popped.0; has_response = has })
