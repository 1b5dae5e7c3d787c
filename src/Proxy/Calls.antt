-- ===== src/Proxy/Calls.antt =====
-- What the data flow of src/greensql.cpp uses of a connection: the virtual calls and the members of
-- Connection in src/connection.hpp.
use greensql_fw.Base.{Bool, Bytes}
use greensql_fw.Connection.Run.{Run}

-- What parseRequest leaves: the connection, its `request_in`, the text for the server, and whether
-- there is an answer for the client already.
pub record Parsed (S : Type 0) : Type 0 where
  pub connection : S
  pub request_in : Bytes
  pub request : Bytes
  pub has_response : Bool

-- `S` is a connection without its two buffers of requests. parseResponse reads its own
-- `response_in`; the text is what it hands to the client.
pub record Protocol (S : Type 0) : Type 0 where
  pub response_in : S → Bytes
  pub response_out : S → Bytes
  pub set_response_in : S → Bytes → S
  pub set_response_out : S → Bytes → S
  pub first_response : S → Bool
  pub parse_request : S → Bytes → Run (Parsed S)
  pub parse_response : S → Run (S × Bytes)
