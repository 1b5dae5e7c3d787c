-- ===== src/MySql/Blocked.antt =====
-- What becomes of a query that check_query does not allow (src/mysql/mysql_con.cpp).
use greensql_fw.Base.{
  ◌>>=◌, ℕ, ◌+◌, ◌≤◌, ◌<◌, Bool, true, false, not, ◌||◌, ◌==◌, Bytes, [], ◌∷◌, ◌++◌, Option, some,
  length, ◌≡◌, refl, ◌∙◌, ap, arith, Bool-cases, inl, inr,
}
use greensql_fw.Permissions.{DbPermObj}
use greensql_fw.Buffer.Fifo.{append-length}
use greensql_fw.Connection.{Outcome, check_query}
use greensql_fw.Connection.Verdict.{check_query-allowed}
use greensql_fw.MySql.{Requests, parse_request}
use greensql_fw.Connection.Server.{Server}
use greensql_fw.MySql.State.{MySqlConnection, check_original, block, block_response, settle}
use greensql_fw.MySql.Command.{begin_command, parse_request_packet}
use greensql_fw.MySql.Command.Query.{query_packet, parse_request_packet-query}
use greensql_fw.MySql.Queries.{parse_request-one, parse_request-two}

-- The text of a buffer behind a check: with the answer for a query that is not allowed.
abbrev pub answer : Bool → Bytes → Bytes
answer true buffer = buffer
answer false buffer = block_response buffer

settle-answer :
    (allowed : Bool) (s : MySqlConnection)
    → ((settle allowed s).1 ≡ not allowed)
      × ((settle allowed s).0.actions ≡ s.actions)
      × ((settle allowed s).0.response_in
          ≡ answer (allowed || length s.response_in == 0) s.response_in)
      × ((settle allowed s).0.response_out
          ≡ answer (allowed || not (length s.response_in == 0)) s.response_out)
      × ((settle allowed s).0.first_request ≡ s.first_request)
      × ((settle allowed s).0.db ≡ s.db)
unfolding settle block
settle-answer true s = (refl, refl, refl, refl, refl, refl)
settle-answer false s = elim (Bool-cases (length s.response_in == 0)) [
  | inl idle ↦
      rw idle (refl, refl, refl, append-length s.response_out (block_response []), refl, refl)
  | inr busy ↦
      rw busy (refl, refl, append-length s.response_in (block_response []), refl, refl, refl)
]

-- The connection that check_query is asked for, with the answer `o`.
abbrev pub asked : MySqlConnection → Outcome → MySqlConnection
asked s o = record s {
  original_query = o.pattern;
  start_response = true;
  actions = s.actions ++ o.actions;
}

check_original-settle :
    (server : Server) (s : MySqlConnection) (query : Bytes) (db : DbPermObj) (o : Outcome)
    → s.db ≡ some db
    → check_query (record server.context { db = db }) query ≡ some o
    → check_original server s query ≡ some (settle o.allowed (asked s o))
unfolding check_original
check_original-settle server s query db o d e =
    ap
      (λ x. x >>= (λ db.
        check_query (record server.context { db = db }) query
        >>= (λ o. some (settle o.allowed (asked s o)))))
      d
    ∙ ap (λ x. x >>= (λ o. some (settle o.allowed (asked s o)))) e

or_idem : (b : Bool) → (b || b) ≡ b
or_idem true = refl
or_idem false = refl

-- A query of a client that is logged in, in a packet with less than seven bytes behind it: the
-- query is checked, and the call returns. Whatever the check says, the whole packet goes to the
-- server; a query that is not allowed is only answered in addition, to the client, or behind the
-- data of the server that wait for their turn.
pub parse_request_query :
    (server : Server) (s : MySqlConnection) (db : DbPermObj) (id c : ℕ) (query rest : Bytes)
    → s.first_request ≡ false
    → s.db ≡ some db
    → (c == 0) ≡ false
    → length rest < 7
    → (o : Outcome) × (check_query (record server.context { db = db }) (c ∷ query) ≡ some o)
      × (r : Requests) × (parse_request server s (query_packet id (c ∷ query) ++ rest) [] ≡ some r)
      × (r.request ≡ query_packet id (c ∷ query))
      × (r.request_in ≡ rest)
      × (r.has_response ≡ not o.allowed)
      × (r.connection.actions ≡ s.actions ++ o.actions)
      × (r.connection.response_in ≡ answer (o.allowed || length s.response_in == 0) s.response_in)
      × (r.connection.response_out
          ≡ answer (o.allowed || not (length s.response_in == 0)) s.response_out)
unfolding begin_command
parse_request_query server s db id c query rest f d z l =
    let (pattern, norm, o, e, verdict) =
      check_query-allowed (record server.context { db = db }) (c ∷ query)
        (λ h. ground (arith, h)) in
    let begun = begin_command s 3 in
    let (p1, p2, p3, p4, p5, p6) = settle-answer o.allowed (asked begun o) in
    (
      o,
      e,
      _,
      parse_request-one server s id c query rest f z l
          ∙ ap
              (λ x. x >>= (λ (next, has). some record {
                connection = next;
                request_in = rest;
                request = query_packet id (c ∷ query);
                has_response = has;
              }))
              (check_original-settle server begun (c ∷ query) db o d e),
      refl,
      refl,
      p1,
      p2,
      p3,
      p4,
    )

-- A client that is logged in sends a query and behind it a packet of the same size, whatever that
-- is: both go to the server, and what the connection does is what two checks of the first query make
-- of it. The second packet is not looked at.
pub parse_request_second :
    (server : Server) (s : MySqlConnection) (db : DbPermObj) (id c : ℕ) (query second : Bytes)
    → s.first_request ≡ false
    → s.db ≡ some db
    → (c == 0) ≡ false
    → 1 ≤ length query
    → length second ≡ length (query_packet id (c ∷ query))
    → (o : Outcome) × (check_query (record server.context { db = db }) (c ∷ query) ≡ some o)
      × (r : Requests) × (parse_request server s (query_packet id (c ∷ query) ++ second) []
          ≡ some r)
      × (r.request ≡ query_packet id (c ∷ query) ++ second)
      × (r.has_response ≡ not o.allowed)
      × (r.connection.actions ≡ (s.actions ++ o.actions) ++ o.actions)
unfolding begin_command
parse_request_second server s db id c query second f d z k l =
    let (pattern, norm, o, e, verdict) =
      check_query-allowed (record server.context { db = db }) (c ∷ query)
        (λ h. ground (arith, h)) in
    let begun = begin_command s 3 in
    let result : Bool → MySqlConnection × Bool → Option Requests = λ has (last, has'). some record {
      connection = last;
      request_in = [];
      request = query_packet id (c ∷ query) ++ second;
      has_response = has || has';
    } in
    let first = asked begun o in
    let (p1, p2, p3, p4, p5, p6) = settle-answer o.allowed first in
    let next = (settle o.allowed first).0 in
    let (q1, q2, q3, q4, q5, q6) = settle-answer o.allowed (asked (begin_command next 3) o) in
    let again : parse_request_packet server next (query_packet id (c ∷ query) ++ second)
          (length (c ∷ query) + 5)
        ≡ some (settle o.allowed (asked (begin_command next 3) o)) =
      parse_request_packet-query server next id c query second (p5 ∙ f) z
      ∙ check_original-settle server (begin_command next 3) (c ∷ query) db o (p6 ∙ d) e in
    (
      o,
      e,
      _,
      parse_request-two server s id c query second f z k l
          ∙ ap
              (λ x. x >>= (λ (next, has).
                parse_request_packet server next (query_packet id (c ∷ query) ++ second)
                  (length (c ∷ query) + 5)
                >>= result has))
              (check_original-settle server begun (c ∷ query) db o d e)
          ∙ ap (λ x. x >>= result (settle o.allowed first).1) again,
      refl,
      ap (λ x. x || (settle o.allowed (asked (begin_command next 3) o)).1) p1
          ∙ ap (λ x. not o.allowed || x) q1
          ∙ or_idem (not o.allowed),
      q2 ∙ ap (λ x. x ++ o.actions) p2,
    )
