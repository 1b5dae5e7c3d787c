-- ===== src/PgSql/Queries.antt =====
-- parseRequest of src/pgsql/pgsql_con.cpp on a buffer that holds one packet.
use greensql_fw.Base.{
  ℕ, suc, ◌+◌, ◌-◌, ◌*◌, ◌/◌, ◌%◌, ◌≤◌, ◌<◌, Bool, true, false, not, ◌&&◌, ◌||◌, ltb, ◌==◌, Bytes,
  [], ◌∷◌, ◌++◌, some, length, drop, take, equal, ◌≡◌, ◌≢◌, refl, sym, ◌∙◌, ap, arith, Bool-cases,
  inl, inr, le→ltb, drop-all, length-append,
}
use greensql_fw.Normalization.Loops.{span, skip_while, skip_while-span}
use greensql_fw.Permissions.{DbPermObj}
use greensql_fw.Buffer.{pop}
use greensql_fw.Buffer.Fifo.{take_all, append-length}
use greensql_fw.Connection.{Outcome, check_query}
use greensql_fw.Connection.Server.{Server}
use greensql_fw.Connection.Verdict.{check_query-allowed}
use greensql_fw.PgSql.{Requests, parse_request, packets, packet_loop, ignore_false}
use greensql_fw.Connection.Run.{Run, done, closes, undefined, endless, then_run, of_option}
use greensql_fw.PgSql.State.{
  PgSqlConnection, u64_mod, packet_size, c_string, answer_client, block_response, settle,
  check_original,
}
use greensql_fw.PgSql.Command.{parse_one, cancel}
use greensql_fw.PgSql.Command.Simple.{parse_one-sixteen, parse_one-query}

abbrev all_of : Bytes → PgSqlConnection × Bool → Run Requests
all_of bytes (next, has) =
    done record { connection = next; request_in = []; request = bytes; has_response = has }

cut_all :
    (bytes : Bytes) (r : Run (PgSqlConnection × Bool))
    → then_run (then_run r (λ (next, has). done (next, has, length bytes))) (λ (next, has, start).
      done record {
        connection = next;
        request_in = drop start bytes;
        request = take start bytes;
        has_response = has;
      })
      ≡ then_run r (all_of bytes)
cut_all bytes (done (next, has)) = rw (drop-all (length bytes) bytes (omega arith), take_all bytes)
cut_all bytes closes = refl
cut_all bytes undefined = refl
cut_all bytes endless = refl

packet_loop-single :
    (fuel : ℕ) (server : Server) (s : PgSqlConnection) (bytes : Bytes)
    → length bytes < 2147483648
    → packet_loop (suc fuel) server bytes s false 0 (length bytes)
      ≡ then_run
          (ignore_false s (parse_one server s bytes (length bytes)))
          (λ (next, has). done (next, has, length bytes))
unfolding packet_loop
packet_loop-single fuel server s bytes l =
    let sum : (0 + length bytes) % u64_mod ≡ length bytes = omega arith in
    let here : (length bytes == length bytes) ≡ true = ground arith in
    rw (sum, le→ltb (length bytes) (length bytes) (omega arith), here)

parse_request-single :
    (server : Server) (s : PgSqlConnection) (bytes : Bytes)
    → s.first_request ≡ false
    → 5 ≤ length bytes
    → (length bytes == 8) ≡ false
    → length bytes < 2147483648
    → packet_size bytes 0 ≡ length bytes
    → parse_request server s bytes []
      ≡ then_run (ignore_false s (parse_one server s bytes (length bytes))) (all_of bytes)
unfolding parse_request packets pop
parse_request-single server s bytes f five eight l size =
    let fuel : length bytes + 1 ≡ suc (length bytes) = omega arith in
    rw (le→ltb (length bytes) 5 five, eight)
      (ap (λ b. packets b server s bytes []) f
        ∙ rw (fuel, size, packet_loop-single (length bytes) server s bytes l) (cut_all bytes _))

-- A buffer of one packet of 16 bytes, whatever query it holds, goes to the server without a check,
-- unless it begins as the request to cancel does: the comparison with that is the wrong way round.
pub parse_request_sixteen :
    (server : Server) (s : PgSqlConnection) (bytes : Bytes)
    → s.first_request ≡ false
    → length bytes ≡ 16
    → packet_size bytes 0 ≡ 16
    → equal (take 8 bytes) cancel ≡ false
    → parse_request server s bytes []
      ≡ done record { connection = s; request_in = []; request = bytes; has_response = false }
unfolding ignore_false
parse_request_sixteen server s bytes f l size other =
    parse_request-single server s bytes f (omega (arith, l)) (ground (arith, l)) (omega (arith, l))
      (size ∙ sym l)
    ∙ rw (l, parse_one-sixteen server s bytes f other)

-- The packet of a query: its type, the length in four bytes, and the text with a zero behind it.
abbrev pub query_packet : Bytes → Bytes
query_packet query =
    let n = length query + 5 in
    b'Q' ∷ n / 16777216 ∷ (n / 65536) % 256 ∷ (n / 256) % 256 ∷ n % 256 ∷ (query ++ (0 ∷ []))

-- No zero in the text.
abbrev pub zero_free : Bytes → Bool
zero_free [] = true
zero_free (c ∷ s) = not (c == 0) && zero_free s

span-zero_free :
    (s : Bytes) → zero_free s ≡ true → span (λ c. not (c == 0)) (s ++ (0 ∷ [])) ≡ length s
unfolding span
span-zero_free [] h = refl
span-zero_free (c ∷ s) h = ground (arith, span-zero_free s)

take-length-append : (s rest : Bytes) → take (length s) (s ++ rest) ≡ s
take-length-append [] rest = refl
take-length-append (c ∷ s) rest = rw (take-length-append s rest)

length-query_packet : (query : Bytes) → length (query_packet query) ≡ length query + 6
length-query_packet query = omega (arith, length-append query (0 ∷ []))

c_string-query :
    (query : Bytes) → zero_free query ≡ true → c_string (query_packet query) 5 ≡ done query
unfolding c_string
c_string-query query h =
    let bytes = query_packet query in
    let within : ltb (length bytes) 5 ≡ false =
      le→ltb (length bytes) 5 (omega (arith, length-query_packet query)) in
    let end : skip_while (λ c. not (c == 0)) bytes 5 - 5 ≡ length query =
      omega (arith, skip_while-span (λ c. not (c == 0)) bytes 5, span-zero_free query h) in
    rw (within, end) (ap done (take-length-append query (0 ∷ [])))

packet_size-query :
    (query : Bytes)
    → length query < 2147483600
    → packet_size (query_packet query) 0 ≡ length query + 6
unfolding packet_size
packet_size-query query l =
    let n = length query + 5 in
    let field : n / 16777216 * 16777216
          + (n / 65536) % 256 * 65536
          + (n / 256) % 256 * 256
          + n % 256
        ≡ n =
      omega arith in
    let sum : (n + 1) % 4294967296 ≡ length query + 6 = omega (arith, l) in
    let positive : ltb (length query + 6) 2147483648 ≡ true = ground (arith, l) in
    rw (field, sum, positive)

-- The text of a buffer behind a check: with the answer for a query that is not allowed.
abbrev pub answer : Bool → Bytes → Bytes
answer true buffer = buffer
answer false buffer = block_response buffer

settle-answer :
    (allowed : Bool) (s : PgSqlConnection)
    → ((settle allowed s).1 ≡ not allowed)
      × ((settle allowed s).0.actions ≡ s.actions)
      × ((settle allowed s).0.response_in
          ≡ answer (allowed || length s.response_in == 0) s.response_in)
      × ((settle allowed s).0.response_out
          ≡ answer (allowed || not (length s.response_in == 0)) s.response_out)
unfolding settle answer_client
settle-answer true s = (refl, refl, refl, refl)
settle-answer false s = elim (Bool-cases (length s.response_in == 0)) [
  | inl idle ↦ rw idle (refl, refl, refl, append-length s.response_out (block_response []))
  | inr busy ↦ rw busy (refl, refl, append-length s.response_in (block_response []), refl)
]

-- The connection that check_query is asked for, with the answer `o`.
abbrev pub asked : PgSqlConnection → Outcome → PgSqlConnection
asked s o = record s {
  long_response = true;
  long_response_data = false;
  original_query = o.pattern;
  actions = s.actions ++ o.actions;
}

pub check_original-settle :
    (server : Server) (s : PgSqlConnection) (query : Bytes) (db : DbPermObj) (o : Outcome)
    → s.db ≡ some db
    → check_query (record server.context { db = db }) query ≡ some o
    → check_original server (record s { long_response = true; long_response_data = false }) query
      ≡ done (settle o.allowed (asked s o))
unfolding check_original
check_original-settle server s query db o d e =
    ap
      (λ x. then_run (of_option x) (λ db.
        then_run (of_option (check_query (record server.context { db = db }) query))
          (λ o. done (settle o.allowed (asked s o)))))
      d
    ∙ ap (λ x. then_run (of_option x) (λ o. done (settle o.allowed (asked s o)))) e

-- A query of a client that is past the startup message, alone in the buffer, not empty, free of
-- zeros, and not of the two or ten bytes that are let through or dropped unseen: it is checked, and
-- the call returns. Whatever the check says, the whole packet goes to the server; a query that is
-- not allowed is only answered in addition, to the client, or behind the data of the server that
-- wait for their turn.
pub parse_request_statement :
    (server : Server) (s : PgSqlConnection) (db : DbPermObj) (query : Bytes)
    → s.first_request ≡ false
    → s.db ≡ some db
    → query ≢ []
    → zero_free query ≡ true
    → (length query == 2 || length query == 10) ≡ false
    → length query < 2147483600
    → (o : Outcome) × (check_query (record server.context { db = db }) query ≡ some o)
      × (r : Requests) × (parse_request server s (query_packet query) [] ≡ done r)
      × (r.request ≡ query_packet query)
      × (r.request_in ≡ [])
      × (r.has_response ≡ not o.allowed)
      × (r.connection.actions ≡ s.actions ++ o.actions)
      × (r.connection.response_in ≡ answer (o.allowed || length s.response_in == 0) s.response_in)
      × (r.connection.response_out
          ≡ answer (o.allowed || not (length s.response_in == 0)) s.response_out)
unfolding ignore_false
parse_request_statement server s db query f d ne z sizes l =
    let bytes = query_packet query in
    let total = length-query_packet query in
    let size = packet_size-query query l in
    let (pattern, norm, o, e, verdict) =
      check_query-allowed (record server.context { db = db }) query ne in
    let (p1, p2, p3, p4) = settle-answer o.allowed (asked s o) in
    let parsed : parse_one server s bytes (length bytes) ≡ done (settle o.allowed (asked s o)) =
      parse_one-query server s bytes (length bytes) query f refl (ground (arith, total, sizes))
        (c_string-query query z)
      ∙ check_original-settle server s query db o d e in
    (
      o,
      e,
      _,
      parse_request-single server s bytes f (omega (arith, total)) (ground (arith, total, sizes))
            (omega (arith, total, l)) (size ∙ sym total)
          ∙ ap (λ x. then_run (ignore_false s x) (all_of bytes)) parsed,
      refl,
      refl,
      p1,
      p2,
      p3,
      p4,
    )
