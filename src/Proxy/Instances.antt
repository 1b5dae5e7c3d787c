-- ===== src/Proxy/Instances.antt =====
-- The connections of src/mysql/mysql_con.cpp and src/pgsql/pgsql_con.cpp in the data flow.
use greensql_fw.Base.{true, []}
use greensql_fw.Connection.Run.{done, then_run, of_option}
use greensql_fw.Connection.Server.{Server}
use greensql_fw.MySql as M
use greensql_fw.MySql.State.{MySqlConnection}
use greensql_fw.MySql.Response as MR
use greensql_fw.PgSql as P
use greensql_fw.PgSql.State.{PgSqlConnection}
use greensql_fw.PgSql.Response as PR
use greensql_fw.Proxy.Calls.{Protocol}

-- Nothing clears `first_response` of a MySQL connection. The version that the server names is only
-- kept for the log.
unfoldable pub my_sql : Server → Protocol MySqlConnection
my_sql server = record {
  response_in = λ s. s.response_in;
  response_out = λ s. s.response_out;
  set_response_in = λ s bytes. record s { response_in = bytes };
  set_response_out = λ s bytes. record s { response_out = bytes };
  first_response = λ s. true;
  parse_request = λ s bytes. then_run (of_option (M.parse_request server s bytes [])) (λ r.
      done record {
        connection = r.connection;
        request_in = r.request_in;
        request = r.request;
        has_response = r.has_response;
      });
  parse_response = λ s.
      then_run (of_option (MR.parse_response server s s.response_in [] []))
        (λ r. done (record r.connection { response_in = r.response_in }, r.response));
}

unfoldable pub pg_sql : Server → Protocol PgSqlConnection
pg_sql server = record {
  response_in = λ s. s.response_in;
  response_out = λ s. s.response_out;
  set_response_in = λ s bytes. record s { response_in = bytes };
  set_response_out = λ s bytes. record s { response_out = bytes };
  first_response = λ s. s.first_response;
  parse_request = λ s bytes. then_run (P.parse_request server s bytes []) (λ r. done record {
    connection = r.connection;
    request_in = r.request_in;
    request = r.request;
    has_response = r.has_response;
  });
  parse_response = λ s.
      then_run (PR.parse_response s s.response_in [])
        (λ r. done (record r.connection { response_in = r.response_in }, r.response));
}
