-- ===== src/MySql/Queries.antt =====
-- parseRequest of src/mysql/mysql_con.cpp on packets that hold a query.
use greensql_fw.Base.{
  ◌>>=◌, ℕ, zero, suc, ◌+◌, ◌≤◌, ◌<◌, Bool, false, ◌||◌, ◌==◌, Bytes, [], ◌∷◌, ◌++◌, Option, none,
  some, length, take, drop, ◌≡◌, refl, ◌∙◌, ap, arith, length-append, drop-append, drop-all, le→ltb,
}
use greensql_fw.Buffer.Fifo.{take_all}
use greensql_fw.MySql.{Requests, packet_loop, parse_request}
use greensql_fw.Connection.Server.{Server}
use greensql_fw.MySql.State.{MySqlConnection, packet_size, check_original}
use greensql_fw.MySql.Command.{parse_request_packet, begin_command}
use greensql_fw.MySql.Command.Query.{query_packet, packet_size-query, parse_request_packet-query}

packet_loop-last :
    (fuel : ℕ) (server : Server) (bytes : Bytes) (s : MySqlConnection) (has : Bool) (start n : ℕ)
    (o : Option (MySqlConnection × Bool))
    → 1 ≤ fuel
    → packet_size bytes ≡ n
    → parse_request_packet server s bytes n ≡ o
    → length bytes < start + n + 7
    → packet_loop fuel server bytes s has start
      ≡ (o >>= (λ (next, answered). some (next, has || answered, start + n)))
unfolding packet_loop
packet_loop-last zero server bytes s has start n o f e p l = absurd (omega arith)
packet_loop-last (suc fuel) server bytes s has start n none f e p l = rw (e, p)
packet_loop-last (suc fuel) server bytes s has start n (some (next, answered)) f e p l =
    rw (e, p) (ground arith)

packet_loop-more :
    (fuel : ℕ) (server : Server) (bytes : Bytes) (s : MySqlConnection) (has : Bool) (start n : ℕ)
    (o : Option (MySqlConnection × Bool))
    → packet_size bytes ≡ n
    → parse_request_packet server s bytes n ≡ o
    → 7 ≤ n
    → start + n + n ≤ length bytes
    → packet_loop (suc fuel) server bytes s has start ≡ (
        o
        >>= (λ (next, answered). packet_loop fuel server bytes next (has || answered) (start + n)))
unfolding packet_loop
packet_loop-more fuel server bytes s has start n none e p k l = rw (e, p)
packet_loop-more fuel server bytes s has start n (some (next, answered)) e p k l =
    rw (e, p) (ground arith)

-- The result of parseRequest, cut behind `start` bytes.
abbrev cut_at : Bytes → MySqlConnection × Bool × ℕ → Option Requests
cut_at bytes (next, has, start) = some record {
  connection = next;
  request_in = drop start bytes;
  request = take start bytes;
  has_response = has;
}

parse_request-whole :
    (server : Server) (s : MySqlConnection) (bytes : Bytes)
    → 3 ≤ length bytes
    → packet_size bytes ≤ length bytes
    → parse_request server s bytes []
      ≡ (packet_loop (length bytes) server bytes s false 0 >>= cut_at bytes)
unfolding parse_request
parse_request-whole server s bytes h k =
    rw (le→ltb (length bytes) 3 h, le→ltb (length bytes) (packet_size bytes) k)

take-length-append : (s rest : Bytes) → take (length s) (s ++ rest) ≡ s
take-length-append [] rest = refl
take-length-append (c ∷ s) rest = rw (take-length-append s rest)

cut_at-append :
    (next : MySqlConnection) (has : Bool) (start : ℕ) (bytes rest : Bytes)
    → start ≡ length bytes
    → cut_at (bytes ++ rest) (next, has, start)
      ≡ some record { connection = next; request_in = rest; request = bytes; has_response = has }
cut_at-append next has start bytes rest e =
    rw (e, drop-append bytes rest, take-length-append bytes rest)

cut_one :
    (o : Option (MySqlConnection × Bool)) (start : ℕ) (bytes rest : Bytes)
    → start ≡ length bytes
    → (o >>= (λ (next, has). some (next, false || has, start)) >>= cut_at (bytes ++ rest)) ≡ (
        o >>= (λ (next, has).
          some
            record { connection = next; request_in = rest; request = bytes; has_response = has }))
cut_one none start bytes rest e = refl
cut_one (some (next, has)) start bytes rest e = cut_at-append next has start bytes rest e

-- One query, with less than the beginning of another packet behind it.
pub parse_request-one :
    (server : Server) (s : MySqlConnection) (id c : ℕ) (query rest : Bytes)
    → s.first_request ≡ false
    → (c == 0) ≡ false
    → length rest < 7
    → parse_request server s (query_packet id (c ∷ query) ++ rest) [] ≡ (
        check_original server (begin_command s 3) (c ∷ query) >>= (λ (next, has). some record {
          connection = next;
          request_in = rest;
          request = query_packet id (c ∷ query);
          has_response = has;
        }))
parse_request-one server s id c query rest f z l =
    let packet = query_packet id (c ∷ query) in
    let bytes = packet ++ rest in
    let size = packet_size-query id (c ∷ query) rest in
    let total : length bytes ≡ length (c ∷ query) + 5 + length rest =
      omega (arith, length-append packet rest) in
    let loop =
      packet_loop-last (length bytes) server bytes s false 0 (length (c ∷ query) + 5) _
        (omega arith) size (parse_request_packet-query server s id c query rest f z)
        (omega (arith, total)) in
    parse_request-whole server s bytes (omega (arith, total)) (omega (arith, total, size))
    ∙ ap (λ x. x >>= cut_at bytes) loop
    ∙ cut_one (check_original server (begin_command s 3) (c ∷ query)) _ packet rest (omega arith)

cut_two :
    (o : Option (MySqlConnection × Bool)) (has : Bool) (start : ℕ) (bytes : Bytes)
    → start ≡ length bytes
    → (o >>= (λ (next, has'). some (next, has || has', start)) >>= cut_at bytes) ≡ (
        o >>= (λ (next, has'). some record {
          connection = next;
          request_in = [];
          request = bytes;
          has_response = has || has';
        }))
cut_two none has start bytes e = refl
cut_two (some (next, has')) has start bytes e =
    rw (e, drop-all (length bytes) bytes (omega arith), take_all bytes)

-- Two packets of one size: the loop looks at the first one twice.
loop_twice :
    (server : Server) (bytes : Bytes) (n fuel : ℕ) (o : Option (MySqlConnection × Bool))
    → 1 ≤ fuel
    → packet_size bytes ≡ n
    → length bytes ≡ n + n
    → (o
        >>= (λ (next, has). packet_loop fuel server bytes next (false || has) (0 + n))
        >>= cut_at bytes)
      ≡ (o >>= (λ (next, has). parse_request_packet server next bytes n >>= (λ (last, has').
          some record {
            connection = last;
            request_in = [];
            request = bytes;
            has_response = has || has';
          })))
loop_twice server bytes n fuel none f e l = refl
loop_twice server bytes n fuel (some (next, has)) f e l =
    ap (λ x. x >>= cut_at bytes)
      (packet_loop-last fuel server bytes next has (0 + n) n
        (parse_request_packet server next bytes n) f e refl (omega arith))
    ∙ cut_two (parse_request_packet server next bytes n) has _ bytes (omega arith)

-- Two packets of one size: the second is not looked at.
pub parse_request-two :
    (server : Server) (s : MySqlConnection) (id c : ℕ) (query second : Bytes)
    → s.first_request ≡ false
    → (c == 0) ≡ false
    → 1 ≤ length query
    → length second ≡ length (query_packet id (c ∷ query))
    → parse_request server s (query_packet id (c ∷ query) ++ second) [] ≡ (
        check_original server (begin_command s 3) (c ∷ query) >>= (λ (next, has).
          parse_request_packet server next
            (query_packet id (c ∷ query) ++ second)
            (length (c ∷ query) + 5)
          >>= (λ (last, has'). some record {
            connection = last;
            request_in = [];
            request = query_packet id (c ∷ query) ++ second;
            has_response = has || has';
          })))
parse_request-two server s id c query second f z k l =
    let packet = query_packet id (c ∷ query) in
    let bytes = packet ++ second in
    let n = length (c ∷ query) + 5 in
    let size = packet_size-query id (c ∷ query) second in
    let total : length bytes ≡ n + n = omega (arith, length-append packet second) in
    parse_request-whole server s bytes (omega (arith, total)) (omega (arith, total, size))
    ∙ ap (λ x. x >>= cut_at bytes)
        (packet_loop-more (length (drop 1 bytes)) server bytes s false 0 n _ size
          (parse_request_packet-query server s id c query second f z) (omega arith)
          (omega (arith, total)))
    ∙ loop_twice server bytes n (length (drop 1 bytes)) _ (omega (arith, total)) size total
