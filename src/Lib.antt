-- ===== src/Lib.antt =====
-- greensql-fw is a firewall between an application and its MySQL or PostgreSQL server. It reads
-- the queries of each connection, turns each into a pattern, and passes, blocks, logs or learns
-- it.
--
-- The parts, and the files that model them:
-- - src/normalization.cpp, the pattern of a query (normalizeQuery): Normalization.antt. Quotes has
--   lookForChar and removeQuotedText, Comments the three passes for comments, Numbers, Spaces and
--   Negative removeNumbers, removeSpaces and fixNegativeNumbers, Pattern the composition. Each
--   pass is the loop of the source over an index into a text that it changes in place.
-- - src/misc.cpp: Misc.antt (itoa, TrimStr, ParseConfLine, str_lowercase).
-- - src/dbpermobj.cpp, the permissions and the whitelist of a database: Permissions.antt.
-- - src/dbmap.cpp, the map from proxy and database to permissions, and its reload: DbMap.antt.
-- - src/config.cpp and src/config.hpp: Config.antt, the settings and the loading of the file from its lines.
-- - src/patterns.cpp: Patterns.antt, the lists of regular expressions and their match.
-- - src/connection.cpp: Connection.antt, check_query, which asks all the others: the pattern from
--   Normalization, the whitelist and the mode from Permissions, checkBlacklist (of
--   src/mysql/mysql_con.cpp, and alike of src/pgsql/pgsql_con.cpp) from Patterns, and
--   calculateRisk with the weights from Config. Its calls with an effect outside are the list of
--   actions of its outcome.
-- - src/buffer.cpp: Buffer.antt, the text of a buffer and what append, chop_back and pop do to it.
-- - src/mysql/mysql_con.cpp: MySql.antt, parseRequest with its loop over the packets in
--   request_in. MySql/State.antt is the state of a connection with blockResponse and the way of a
--   query through check_query, MySql/Login.antt the first packet, MySql/Command.antt the other
--   commands. A connection looks at the map of databases (DbMap) and at what check_query looks at.
--   MySql/Response.antt has parseResponse and ParseResponsePacket, the answers of the server.
-- - src/pgsql/pgsql_con.cpp: PgSql.antt, parseRequest with its loop over the packets in request_in.
--   PgSql/State.antt has the state of a connection, the integers and texts of a packet;
--   PgSql/Startup.antt the startup message and its parameters, PgSql/Command.antt the other commands
--   of parse_request, PgSql/Response.antt parseResponse and parse_response. How a call ends is Run of
--   Connection/Run.antt.
--   checkBlacklist is that of Connection.antt.
-- - src/greensql.cpp, the data flow of a connection: Proxy.antt, Proxy_cb and Backend_cb with all that
--   they call, over the four buffers. Proxy/Calls.antt is the interface of a connection (the virtual
--   calls of src/connection.hpp), which Proxy/Instances.antt fills with MySql and PgSql. The
--   sessions that events lead to are the relation of Proxy/Reach.antt.
-- - src/proxymap.cpp, the proxies and their reload, with ProxyInit and ProxyReInit of
--   src/greensql.cpp: ProxyMap.antt.
-- - src/alert.cpp, what becomes of the alerts of check_query: Alert.antt, the map of groups and
--   logalert over a configuration database.
--   Alert/Statements.antt has the texts of its statements, and fills the interface of that database.
-- - src/sql_api.cpp, which loads the library for the configuration database, with load_db of
--   src/config.cpp: Loader.antt. src/lib/sql_api.c, the library: Driver.antt, in Driver/MySqlClient.antt
--   and Driver/PgClient.antt what is built of it with MySQL and with PostgreSQL, and in
--   Driver/Escape.antt db_escape_string.
-- - The sockets of src/greensql.cpp, Connection::close of src/connection.cpp and wrap_Server of
--   src/proxymap.cpp: Sockets.antt, over the table of open descriptors and the events that are added.
--   Sockets/Writers.antt has the events for writes, and Sockets/Life.antt the relation of the states of
--   a proxy. What the data do behind an event is in Proxy.antt.
-- - src/main.cpp: Main.antt, main, Killer and the timer, which put the parts together. The relation of
--   Main/Life.antt has the states from the start of the event loop on.
-- - src/log.cpp, the dump of packets and, in Log/File.antt, the log file: Log.antt.
-- - src/parser/expression.hpp: Expression.antt, the expressions that the grammar builds to find
--   those that are always true. The grammar itself is a parameter of the query check.
-- - src/parser/parser.cpp: Parser.antt, query_parse over the calls back of the grammar.
-- Base.antt has what all of them use: Boolean tests, lists measured by native numbers, texts as
-- lists of byte values, and the C++ int.
--
-- Names are those of the source, in snake case for functions and in camel case with a capital for
-- types. What the source does in place is a function from the state before to the state after. A
-- failure, an exception and undefined behaviour are `none`; which of these it is stands with the
-- definition.
--
-- Bounds and fuel: a loop over an index is a recursion on fuel, and the fuel is the length of the
-- text at the start. Each round moves the index on, and no round makes the text longer, so the
-- index is at the end of the text before the fuel is used up. The loop over packets has the length
-- of the buffer as its fuel: a packet has four bytes at least (MySql/Fuel.antt). That of PostgreSQL
-- has one round more, and a result `endless` for when they are used up, since it need not end
-- (PgSql/Endless.antt); on the buffers of PgSql/Returns.antt it does. The risk is an
-- unsigned int, with its wrap-around at 2^32 written out; an int is an integer.
--
-- In the data flow the size of a buffer is taken to be less than 2^31, where an int holds it.
--
-- Parameters: the scanner and grammar of src/parser (the calls back in Parser.antt, and all of
-- query_parse in Connection.antt), PCRE (Pcre of Patterns.antt), the answers of the
-- configuration database, as rows, those of recv and send (Proxy.antt) and of the calls that make
-- sockets (Sockets.antt), the statements of an alert (AlertDb of Alert.antt), libmysqlclient and libpq
-- (Driver), dlopen and dlsym (Loader.antt), and the files that main reads (World of Main.antt).
--
-- Not modelled: the event loop itself, the registration of the signals and the parts for Windows, the
-- formats of the messages of the log, the opening of the connection to the configuration database
-- (db_load of src/lib), the texts of the queries of its reloads, and src/riskengine.cpp, which is
-- commented out.
mod Base
pub mod Normalization
pub mod Permissions
pub mod Misc
pub mod DbMap
pub mod Config
pub mod Patterns
pub mod Connection
pub mod Buffer
pub mod MySql
pub mod Expression
pub mod Parser
pub mod PgSql
pub mod Proxy
pub mod ProxyMap
pub mod Alert
pub mod Log
pub mod Driver
pub mod Loader
pub mod Main
pub mod Sockets
