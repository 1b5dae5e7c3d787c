-- ===== src/Proxy.antt =====
-- The way of the data through the buffers of a connection: Proxy_cb, Backend_cb and what they call
-- (src/greensql.cpp). What the sockets answer is an argument.
pub mod Calls
pub mod Core
pub mod Reach
pub mod Pending
pub mod Instances
pub mod Conserved
mod Tests
use greensql_fw.Base.{
  ℕ, Bool, true, false, not, ◌==◌, Bytes, [], ◌++◌, Option, none, some, length, take, if◌then◌else◌,
}
use greensql_fw.Buffer.{append, chop_back}
use greensql_fw.Connection.Run.{Run, done, closes, undefined, endless, then_run}
use greensql_fw.Proxy.Calls.{Parsed, Protocol}

-- The answer of send(): so many bytes, the errors EAGAIN, EWOULDBLOCK and EINPROGRESS, or another.
pub data Sent : Type 0 where
  sent : ℕ → Sent
  send_later send_failed : Sent

-- The answer of recv(): these bytes, none of them at the end of the connection.
pub data Received : Type 0 where
  received : Bytes → Received
  receive_later receive_failed : Received

-- `none` for the result false, else the number of bytes.
pub socket_write : Sent → Option ℕ
socket_write (sent n) = if n == 0 then none else some n
socket_write send_later = some 0
socket_write send_failed = none

pub socket_read : Received → Option Bytes
socket_read (received bytes) = if length bytes == 0 then none else some bytes
socket_read receive_later = some []
socket_read receive_failed = none

-- A connection with its buffers of requests and whether its write events are added. The texts `from`
-- and `to` are what went over the sockets so far.
pub record Session (S : Type 0) : Type 0 where
  pub connection : S
  pub request_in : Bytes
  pub request_out : Bytes
  pub proxy_writer : Bool
  pub backend_writer : Bool
  pub from_client : Bytes
  pub to_server : Bytes
  pub from_server : Bytes
  pub to_client : Bytes

-- An event on a socket: `which`, and what the sockets answer in the call. `answer` is for a write to
-- the client behind a parse, `forward` for one to the server.
pub record Event : Type 0 where
  pub writable : Bool
  pub readable : Bool
  pub write : Sent
  pub read : Received
  pub answer : Sent
  pub forward : Sent

module _ {S : Type 0} (protocol : Protocol S) where
  -- `closes` stands for the result false.
  pub proxy_write_cb : Sent → Session S → Run (Session S)
  proxy_write_cb answer s =
      let out = protocol.response_out s.connection in
      if length out == 0
      then done (record s { proxy_writer = false })
      else elim (socket_write answer) [
        | none ↦ closes
        | some n ↦
            let rest = chop_back out n in
            done (record s {
              connection = protocol.set_response_out s.connection rest;
              to_client = s.to_client ++ take n out;
              proxy_writer = not (length rest == 0);
            })
      ]

  pub backend_write_cb : Sent → Session S → Run (Session S)
  backend_write_cb answer s =
      if length s.request_out == 0
      then done (record s { backend_writer = false })
      else elim (socket_write answer) [
        | none ↦
            if protocol.first_response s.connection
            then done (record s { backend_writer = true })
            else closes
        | some n ↦
            let rest = chop_back s.request_out n in
            done (record s {
              request_out = rest;
              to_server = s.to_server ++ take n s.request_out;
              backend_writer = not (length rest == 0);
            })
      ]

  pub proxy_validate_server_response : Sent → Session S → Run (Session S)
  proxy_validate_server_response answer s =
      then_run (protocol.parse_response s.connection) (λ (next, response).
        let out = append (protocol.response_out next) response (length response) in
        if length response == 0
        then done (record s { connection = next })
        else proxy_write_cb answer (record s { connection = protocol.set_response_out next out }))

  -- The answer for a query that is not allowed. The result of Proxy_write_cb is not looked at.
  pub push_response : Sent → Session S → Run (Session S)
  push_response answer s =
      if not (length (protocol.response_in s.connection) == 0)
      then proxy_validate_server_response answer s
      else if length (protocol.response_out s.connection) == 0
      then done s
      else elim (proxy_write_cb answer s) [
        | done next ↦ done next
        | closes ↦ done s
        | undefined ↦ undefined
        | endless ↦ endless
      ]

  pub proxy_validate_client_request : Sent → Sent → Session S → Run (Session S)
  proxy_validate_client_request answer forward s =
      then_run (protocol.parse_request s.connection s.request_in) (λ parsed.
        let next = record s { connection = parsed.connection; request_in = parsed.request_in } in
        then_run (if parsed.has_response then push_response answer next else done next) (λ pushed.
          if length parsed.request == 0
          then done pushed
          else backend_write_cb forward (record pushed {
            request_out = append pushed.request_out parsed.request (length parsed.request);
          })))

  -- The data of a read; `then` is what is done with them.
  pub proxy_read : Event → Session S → Run (Session S)
  proxy_read e s = elim (socket_read e.read) [
    | none ↦ closes
    | some bytes ↦
        if length bytes == 0
        then done s
        else proxy_validate_client_request e.answer e.forward (record s {
          request_in = append s.request_in bytes (length bytes);
          from_client = s.from_client ++ bytes;
        })
  ]

  pub backend_read : Event → Session S → Run (Session S)
  backend_read e s = elim (socket_read e.read) [
    | none ↦ closes
    | some bytes ↦
        let response_in = append (protocol.response_in s.connection) bytes (length bytes) in
        if length bytes == 0
        then done s
        else proxy_validate_server_response e.answer (record s {
          connection = protocol.set_response_in s.connection response_in;
          from_server = s.from_server ++ bytes;
        })
  ]

  -- `closes` stands for CloseConnection.
  pub proxy_cb : Event → Session S → Run (Session S)
  proxy_cb e s =
      then_run (if e.writable then proxy_write_cb e.write s else done s)
        (λ written. if e.readable then proxy_read e written else done written)

  pub backend_cb : Event → Session S → Run (Session S)
  backend_cb e s =
      then_run (if e.writable then backend_write_cb e.write s else done s)
        (λ written. if e.readable then backend_read e written else done written)
