-- ===== src/Proxy/Tests.antt =====
-- Two reads from clients of src/greensql.cpp: the server takes a part of the request, or nothing yet.
use greensql_fw.Base.{true, false, not, ◌==◌, Bytes, [], ◌∷◌, ◌++◌, length, some, codes, ◌≡◌, refl}
use greensql_fw.Permissions.{new_perm_obj}
use greensql_fw.Buffer.{append, chop_back}
use greensql_fw.Connection.Samples.{context}
use greensql_fw.Connection.Server.{Server}
use greensql_fw.MySql as M
use greensql_fw.MySql.Command.{parse_request_packet, begin_command}
use greensql_fw.MySql.State.{MySqlConnection}
use greensql_fw.PgSql as P
use greensql_fw.PgSql.Command.{parse_one}
use greensql_fw.PgSql.State.{PgSqlConnection}
use greensql_fw.Proxy.Conserved.{my_sql-Reach_conserved}
use greensql_fw.Proxy.Instances.{my_sql, pg_sql}
use greensql_fw.Proxy.Pending.{opened, backend_writer-Reach}
use greensql_fw.Proxy.Reach.{Reach, at_start, at_proxy}
use greensql_fw.Proxy.{
  Session, Event, Sent, sent, send_later, received, proxy_cb, proxy_read, socket_read,
  proxy_validate_client_request, backend_write_cb, socket_write,
}

abbrev server : Server
server = record {
  context = context;
  map = record { dbs = []; default_db = some new_perm_obj };
  proxy_id = 1;
}

abbrev client : MySqlConnection
client = record {
  first_request = false;
  second_packet = false;
  mysql41 = true;
  long_response = false;
  long_response_data = false;
  start_response = false;
  last_command_id = 0;
  db_name = codes "shop";
  db_new_name = [];
  db_user = codes "web";
  db = some new_perm_obj;
  original_query = [];
  response_in = [];
  response_out = [];
  actions = [];
}

abbrev pg_client : PgSqlConnection
pg_client = record {
  first_request = false;
  first_response = false;
  second_packet = false;
  long_response = false;
  long_response_data = false;
  db_name = codes "shop";
  db_user = codes "web";
  db_options = [];
  proto_version = codes "3.0";
  db = some new_perm_obj;
  original_query = [];
  response_in = [];
  response_out = [];
  actions = [];
}

-- A read of `bytes`, with the answer of the server's socket.
abbrev reads : Bytes → Sent → Event
reads bytes forward = record {
  writable = false;
  readable = true;
  write = send_later;
  read = received bytes;
  answer = send_later;
  forward = forward;
}

-- The ping of a MySQL client with three bytes behind it; two bytes go on.
abbrev pinged : Session MySqlConnection
pinged = record {
  connection = record client { last_command_id = 14 };
  request_in = 3 ∷ 0 ∷ 0 ∷ [];
  request_out = 0 ∷ 0 ∷ 14 ∷ [];
  proxy_writer = false;
  backend_writer = true;
  from_client = 1 ∷ 0 ∷ 0 ∷ 0 ∷ 14 ∷ 3 ∷ 0 ∷ 0 ∷ [];
  to_server = 1 ∷ 0 ∷ [];
  from_server = [];
  to_client = [];
}

pinged-Reach : Reach (my_sql server) (opened client) pinged
unfolding proxy_cb my_sql M.parse_request parse_request_packet begin_command proxy_read socket_read
    proxy_validate_client_request append backend_write_cb socket_write chop_back
pinged-Reach = at_proxy (reads (1 ∷ 0 ∷ 0 ∷ 0 ∷ 14 ∷ 3 ∷ 0 ∷ 0 ∷ []) (sent 2)) at_start refl

my_sql-Reach_conserved_example :
    pinged.to_server ++ (pinged.request_out ++ pinged.request_in) ≡ pinged.from_client
my_sql-Reach_conserved_example = my_sql-Reach_conserved server client pinged pinged-Reach

-- A PostgreSQL client is ready for the next query; nothing goes on yet.
abbrev synced : Session PgSqlConnection
synced = record (opened pg_client) {
  request_out = b'S' ∷ 0 ∷ 0 ∷ 0 ∷ 4 ∷ [];
  backend_writer = true;
  from_client = b'S' ∷ 0 ∷ 0 ∷ 0 ∷ 4 ∷ [];
}

synced-Reach : Reach (pg_sql server) (opened pg_client) synced
unfolding proxy_cb pg_sql P.parse_request parse_one proxy_read socket_read
    proxy_validate_client_request append backend_write_cb socket_write chop_back
synced-Reach = at_proxy (reads (b'S' ∷ 0 ∷ 0 ∷ 0 ∷ 4 ∷ []) send_later) at_start refl

backend_writer-Reach_example : synced.backend_writer ≡ not (length synced.request_out == 0)
backend_writer-Reach_example = backend_writer-Reach (pg_sql server) pg_client synced synced-Reach
