-- ===== src/MySql/Response/Tests.antt =====
-- Answers of a MySQL server for src/mysql/mysql_con.cpp.
use greensql_fw.Base.{
  ℕ, ◌+◌, ◌≤◌, ◌<◌, true, false, Bytes, [], ◌∷◌, some, codes, take, drop, ◌≡◌, ◌⊎◌, refl, arith,
}
use greensql_fw.Permissions.{DbPermObj, new_perm_obj}
use greensql_fw.Connection.Samples.{context}
use greensql_fw.Connection.Server.{Server}
use greensql_fw.MySql.State.{MySqlConnection, packet_size, find_db}
use greensql_fw.MySql.Response.{Responses, parse_response, is_looked_at, is_error}
use greensql_fw.MySql.Response.Relay.{Border, parse_response_relay}
use greensql_fw.MySql.Response.Database.{parse_response_database}

abbrev bank : DbPermObj
bank = record new_perm_obj { db_name = codes "bank" }

abbrev server : Server
server = record {
  context = context;
  map = record { dbs = []; default_db = some bank };
  proxy_id = 1;
}

-- Logged in, and the last command was to change to `bank`.
abbrev changing : MySqlConnection
changing = record {
  first_request = false;
  second_packet = false;
  mysql41 = true;
  long_response = false;
  long_response_data = false;
  start_response = true;
  last_command_id = 2;
  db_name = codes "shop";
  db_new_name = codes "bank";
  db_user = codes "web";
  db = some new_perm_obj;
  original_query = [];
  response_in = [];
  response_out = [];
  actions = [];
}

abbrev agreed : Bytes
agreed = 7 ∷ 0 ∷ 0 ∷ 1 ∷ 0 ∷ 0 ∷ 0 ∷ 2 ∷ 0 ∷ 0 ∷ 0 ∷ []

parse_response_database_example :
    (r : Responses) × (parse_response server changing agreed [] [] ≡ some r)
    × (r.response ≡ agreed)
    × (r.response_in ≡ [])
    × (r.connection.db_name ≡ codes "bank")
    × (r.connection.db ≡ find_db server (codes "bank"))
unfolding is_error packet_size
parse_response_database_example =
    parse_response_database server changing agreed [] refl refl (omega arith) refl

abbrev idle : MySqlConnection
idle = record changing { last_command_id = 3 }

parse_response_relay_example :
    (n : ℕ) × Border agreed n
    × ((11 ≤ n + 5) ⊎ (11 < n + packet_size (drop n agreed)))
    × (parse_response server idle agreed [] []
        ≡ some record {
          connection = record idle { start_response = false };
          response_in = drop n agreed;
          response = take n agreed;
          db_srv_version = [];
          is_cut = false;
        })
unfolding is_looked_at
parse_response_relay_example = parse_response_relay server idle agreed [] (omega arith) refl
