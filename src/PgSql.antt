-- ===== src/PgSql.antt =====
-- parseRequest of src/pgsql/pgsql_con.cpp: the packets in the buffer of a client's requests are
-- checked and handed on to the server.
pub mod State
pub mod Startup
pub mod Command
pub mod Border
pub mod Forward
pub mod Response
pub mod Endless
pub mod Returns
pub mod Queries
mod Tests
use greensql_fw.Base.{
  ℕ, zero, suc, ◌+◌, ◌%◌, Bool, true, false, ◌||◌, ltb, ◌==◌, Bytes, [], ◌∷◌, length, char_at, drop,
  if◌then◌else◌,
}
use greensql_fw.Buffer.{pop}
use greensql_fw.Connection.Server.{Server}
use greensql_fw.Connection.Run.{Run, done, closes, undefined, endless, then_run}
use greensql_fw.PgSql.State.{PgSqlConnection, u64_mod, be32, to_size, packet_size, answer_client}
use greensql_fw.PgSql.Command.{parse_one}

-- What parseRequest leaves: the connection, its `request_in`, the text for the server, and whether
-- there is an answer for the client already.
pub record Requests : Type 0 where
  pub connection : PgSqlConnection
  pub request_in : Bytes
  pub request : Bytes
  pub has_response : Bool

-- The loop does not look at the result of parse_request.
pub ignore_false : PgSqlConnection → Run (PgSqlConnection × Bool) → Run (PgSqlConnection × Bool)
ignore_false s closes = done (s, false)
ignore_false s r = r

-- The loop, from the place `start` of a packet of `size` bytes on. Sums are those of size_t. The
-- number of bytes that are done with stands last.
pub packet_loop :
    ℕ → Server → Bytes → PgSqlConnection → Bool → ℕ → ℕ → Run (PgSqlConnection × Bool × ℕ)
packet_loop zero server request_in s has_response start size = endless
packet_loop (suc fuel) server request_in s has_response start size =
    let full_size = length request_in in
    let behind = (start + size) % u64_mod in
    let parsed = ignore_false s (parse_one server s (drop start request_in) size) in
    let round = then_run parsed (λ (next, answered).
      let has = has_response || answered in
      let rest =
        packet_loop fuel server request_in next has behind (packet_size request_in behind) in
      if behind == full_size || ltb full_size (behind + 5)
      then done (next, has, behind)
      else rest) in
    if ltb full_size behind then done (s, has_response, start) else round

-- The call for a startup message; what stands behind it in the buffer goes to the server as well.
pub first_packet : Server → PgSqlConnection → Bytes → Bytes → Run Requests
first_packet server s request_in request =
    then_run (parse_one server s request_in (to_size (be32 request_in 0))) (λ (next, has).
      let popped = pop request_in request (length request_in) false in
      done
        record { connection = next; request_in = popped.1; request = popped.0; has_response = has })

-- Nothing is done yet.
abbrev pub waiting : PgSqlConnection → Bytes → Bytes → Requests
waiting s request_in request = record {
  connection = s;
  request_in = request_in;
  request = request;
  has_response = false;
}

-- The two ways on, for a startup message and for commands.
pub packets : (first_request : Bool) → Server → PgSqlConnection → Bytes → Bytes → Run Requests
packets true server s request_in request =
    if ltb (length request_in) (to_size (be32 request_in 0))
    then done (waiting s request_in request)
    else first_packet server s request_in request
packets false server s request_in request =
    then_run
      (packet_loop (length request_in + 1) server request_in s false 0 (packet_size request_in 0))
      (λ (next, has, start).
        let popped = pop request_in request start false in
        done record {
          connection = next;
          request_in = popped.1;
          request = popped.0;
          has_response = has;
        })

-- Eight bytes are taken as the question whether the server speaks SSL, and answered with no.
unfoldable pub parse_request : Server → PgSqlConnection → Bytes → Bytes → Run Requests
unfolding packets packet_loop first_packet pop ignore_false packet_size answer_client
parse_request server s request_in request =
    if ltb (length request_in) 5
    then done (waiting s request_in request)
    else if length request_in == 8
    then done record {
      connection = answer_client s (b'N' ∷ []);
      request_in = (pop request_in request (length request_in) false).1;
      request = [];
      has_response = true;
    }
    else packets s.first_request server s request_in request
