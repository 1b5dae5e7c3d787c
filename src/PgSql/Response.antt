-- ===== src/PgSql/Response.antt =====
-- parseResponse and parse_response of src/pgsql/pgsql_con.cpp: what the server answers.
pub mod Whole
use greensql_fw.Base.{
  ℕ, zero, suc, ◌+◌, ◌%◌, Bool, true, false, not, ◌&&◌, ◌||◌, ltb, ◌==◌, Bytes, [], ◌∷◌, ◌++◌,
  Option, none, some, length, char_at, take, drop, if◌then◌else◌,
}
use greensql_fw.Buffer.{pop}
use greensql_fw.Connection.Run.{Run, done, closes, undefined, endless, then_run}
use greensql_fw.PgSql.State.{PgSqlConnection, u64_mod, be32, to_size, packet_size, c_string}

-- What parseResponse leaves.
pub record Responses : Type 0 where
  pub connection : PgSqlConnection
  pub response_in : Bytes
  pub response : Bytes

abbrev readable : Bytes → ℕ → Run (Unit {0})
readable bytes i = if ltb (length bytes) i then undefined else done tt

-- ErrorResponseHandling reads three texts for the log.
pub error_response : Bytes → ℕ → Run (Unit {0})
error_response bytes start = then_run (c_string bytes start) (λ kind.
    let number_at = length kind + start + 2 in
    then_run (c_string bytes number_at)
      (λ number. then_run (c_string bytes (number_at + (length number + 2))) (λ name. done tt)))

-- A packet about the password. `data[9]` is that of the whole buffer.
pub password_message : Bytes → ℕ → Run (Unit {0})
password_message bytes start =
    let type = char_at bytes (start + 8) in
    let error = error_response bytes (start + 15) in
    then_run (readable bytes (start + 8)) (λ u.
      if char_at bytes (start + 4) == 12 && type == 5 || not (type == 0)
      then done tt
      else then_run (readable bytes (start + 9))
          (λ u. if char_at bytes 9 == 0x45 then error else done tt))

-- The switch on the type of a packet: what it reads for the log.
pub look_at : Bytes → ℕ → Run (Unit {0})
look_at bytes start =
    let type = char_at bytes start in
    if type == 0x52
    then password_message bytes start
    else if type == 0x4B
    then readable bytes (start + 8)
    else if type == 0x45
    then error_response bytes (start + 6)
    else done tt

-- The loop of parse_response: the number of bytes of the packets, or `none` where one is not there as
-- a whole. Sums are those of size_t.
pub response_loop : ℕ → Bytes → ℕ → Run (Option ℕ)
response_loop zero bytes start = endless
response_loop (suc fuel) bytes start =
    let size = to_size (be32 bytes (start + 1)) in
    let behind = (start + size + 1) % u64_mod in
    let rest = response_loop fuel bytes behind in
    if not (ltb (start + 4) (length bytes))
    then done (some start)
    else if ltb (length bytes) behind || size == 0
    then done none
    else then_run (look_at bytes start) (λ u. rest)

-- The loop over packets that only pass through.
pub relay_loop : ℕ → Bytes → ℕ → ℕ → Run ℕ
relay_loop zero bytes start size = endless
relay_loop (suc fuel) bytes start size =
    let behind = (start + size) % u64_mod in
    let rest = relay_loop fuel bytes behind (packet_size bytes behind) in
    if ltb (length bytes) behind
    then done start
    else if ltb (behind + 4) (length bytes)
    then rest
    else done behind

-- Whether the packets are looked at.
unfoldable pub is_looked_at : PgSqlConnection → Bytes → Bool
is_looked_at s bytes =
    s.first_request || char_at bytes 0 == 0x52 || char_at bytes 0 == 0x45 || s.second_packet

-- `response_in.pop(response, start)`.
pub pop_to : PgSqlConnection → Bytes → Bytes → ℕ → Responses
pop_to s response_in response start =
    let popped = pop response_in response start false in
    record { connection = s; response_in = popped.1; response = popped.0 }

pub waiting : PgSqlConnection → Bytes → Bytes → Responses
waiting s response_in response = record {
  connection = s;
  response_in = response_in;
  response = response;
}

-- The calls of parse_response and behind it: all packets go on, or none.
pub parse_looked_at : PgSqlConnection → Bytes → Bytes → Run Responses
parse_looked_at s response_in response =
    if ltb (length response_in) 3
    then done (waiting s response_in response)
    else then_run (response_loop (length response_in + 1) response_in 0) (λ used. elim used [
      | none ↦ done (waiting s response_in response)
      | some n ↦ done (pop_to (record s { second_packet = false }) response_in response n)
    ])

unfoldable pub parse_response : PgSqlConnection → Bytes → Bytes → Run Responses
unfolding parse_looked_at response_loop relay_loop is_looked_at look_at password_message
    error_response pop_to waiting c_string pop packet_size
parse_response s response_in response =
    let answered = record s { first_response = false } in
    if is_looked_at s response_in
    then parse_looked_at answered response_in response
    else if ltb (length response_in) 5
    then done (waiting answered response_in response)
    else then_run (relay_loop (length response_in + 1) response_in 0 (packet_size response_in 0))
        (λ start. done (pop_to answered response_in response start))
