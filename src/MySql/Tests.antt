-- ===== src/MySql/Tests.antt =====
-- Requests of a MySQL client that is logged in.
use greensql_fw.Base.{
  ◌+◌, length, true, false, not, ◌||◌, Bytes, [], ◌∷◌, ◌++◌, some, codes, ◌≡◌, refl, arith,
}
use greensql_fw.Permissions.{new_perm_obj}
use greensql_fw.Connection.{Outcome, check_query}
use greensql_fw.Connection.Samples.{context}
use greensql_fw.Connection.Server.{Server}
use greensql_fw.MySql.Fuel.{packet_loop_enough}
use greensql_fw.MySql.State.{MySqlConnection}
use greensql_fw.MySql.Command.Query.{query_packet}
use greensql_fw.MySql.{packet_loop, Requests, parse_request}
use greensql_fw.MySql.Forward.{parse_request_same}
use greensql_fw.MySql.Command.{parse_request_packet, begin_command}
use greensql_fw.MySql.Blocked.{answer, parse_request_query, parse_request_second}

abbrev server : Server
server = record {
  context = context;
  map = record { dbs = []; default_db = some new_perm_obj };
  proxy_id = 1;
}

abbrev logged_in : MySqlConnection
logged_in = record {
  first_request = false;
  second_packet = false;
  mysql41 = true;
  long_response = false;
  long_response_data = false;
  start_response = false;
  last_command_id = 0;
  db_name = codes "shop";
  db_new_name = [];
  db_user = codes "web";
  db = some new_perm_obj;
  original_query = [];
  response_in = [];
  response_out = [];
  actions = [];
}

abbrev tautologies : Bytes
tautologies = query_packet 0 (codes "select 1=1")

parse_request_query_example :
    (o : Outcome) × (check_query (record context { db = new_perm_obj }) (codes "select 1=1")
      ≡ some o)
    × (r : Requests) × (parse_request server logged_in (tautologies ++ []) [] ≡ some r)
    × (r.request ≡ tautologies)
    × (r.request_in ≡ [])
    × (r.has_response ≡ not o.allowed)
    × (r.connection.actions ≡ [] ++ o.actions)
    × (r.connection.response_in ≡ answer (o.allowed || true) [])
    × (r.connection.response_out ≡ answer (o.allowed || false) [])
parse_request_query_example =
    parse_request_query server logged_in new_perm_obj 0 b's' (codes "elect 1=1") [] refl refl refl
      (omega arith)

parse_request_second_example :
    (o : Outcome) × (check_query (record context { db = new_perm_obj }) (codes "select 1=1")
      ≡ some o)
    × (r : Requests) × (parse_request server logged_in
          (tautologies ++ query_packet 0 (codes "drop shops"))
          []
        ≡ some r)
    × (r.request ≡ tautologies ++ query_packet 0 (codes "drop shops"))
    × (r.has_response ≡ not o.allowed)
    × (r.connection.actions ≡ ([] ++ o.actions) ++ o.actions)
parse_request_second_example =
    parse_request_second server logged_in new_perm_obj 0 b's' (codes "elect 1=1")
      (query_packet 0 (codes "drop shops")) refl refl refl (omega arith) refl

abbrev ping : Bytes
ping = 1 ∷ 0 ∷ 0 ∷ 0 ∷ 14 ∷ []

abbrev pinged : Requests
pinged = record {
  connection = record logged_in { last_command_id = 14 };
  request_in = 3 ∷ 0 ∷ 0 ∷ [];
  request = ping;
  has_response = false;
}

parse_request_same_example :
    (pinged.request ≡ pinged.request)
    × (pinged.request_in ≡ pinged.request_in)
    × (pinged.request ++ pinged.request_in ≡ ping ++ (3 ∷ 0 ∷ 0 ∷ []))
unfolding parse_request parse_request_packet begin_command
parse_request_same_example =
    parse_request_same server server logged_in (record logged_in { long_response = true })
      (ping ++ (3 ∷ 0 ∷ 0 ∷ [])) pinged
      (record pinged {
        connection = record logged_in { long_response = true; last_command_id = 14 };
      })
      refl refl

packet_loop_enough_example :
    packet_loop (length ping + 3) server ping logged_in false 0
    ≡ packet_loop (length ping) server ping logged_in false 0
packet_loop_enough_example = packet_loop_enough 3 server ping logged_in (omega arith)
