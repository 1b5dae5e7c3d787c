-- ===== src/MySql/Command/Query.antt =====
-- A command that holds a query (src/mysql/mysql_con.cpp).
use greensql_fw.Base.{
  ◌>>=◌, ℕ, ◌+◌, ◌-◌, ◌/◌, ◌%◌, false, ◌==◌, Bytes, [], ◌∷◌, ◌++◌, some, length, take, ◌≡◌, refl,
  arith, ap, ◌∙◌,
}
use greensql_fw.Connection.Server.{Server}
use greensql_fw.MySql.State.{MySqlConnection, packet_size, check_original}
use greensql_fw.MySql.Command.{
  parse_request_packet, parse_packet, parse_command, parse_query, begin_command, argument,
}

-- A packet with the number `id`: the length in three bytes, the number, the command and the query.
abbrev pub query_packet : ℕ → Bytes → Bytes
query_packet id query =
    let n = length query + 1 in n % 256 ∷ (n / 256) % 256 ∷ n / 65536 ∷ id ∷ 3 ∷ query

pub packet_size-query :
    (id : ℕ) (query rest : Bytes) → packet_size (query_packet id query ++ rest) ≡ length query + 5
packet_size-query id query rest = omega arith

take-append : (s rest : Bytes) → take (length s) (s ++ rest) ≡ s
take-append [] rest = refl
take-append (c ∷ s) rest = rw (take-append s rest)

argument-query :
    (id : ℕ) (query rest : Bytes)
    → argument (query_packet id query ++ rest) (length query + 5) ≡ some query
argument-query id query rest =
    let size : length query + 5 - 5 ≡ length query = omega arith in
    rw (size, take-append query rest) (ground arith)

pub parse_request_packet-query :
    (server : Server) (s : MySqlConnection) (id c : ℕ) (query rest : Bytes)
    → s.first_request ≡ false
    → (c == 0) ≡ false
    → parse_request_packet server s (query_packet id (c ∷ query) ++ rest) (length (c ∷ query) + 5)
      ≡ check_original server (begin_command s 3) (c ∷ query)
unfolding parse_request_packet parse_packet parse_command parse_query
parse_request_packet-query server s id c query rest f z =
    let packet = query_packet id (c ∷ query) ++ rest in
    ap (λ b. parse_packet b server s packet (length (c ∷ query) + 5)) f
    ∙ rw z (
        ap (λ a. a >>= check_original server (begin_command s 3))
          (argument-query id (c ∷ query) rest))
