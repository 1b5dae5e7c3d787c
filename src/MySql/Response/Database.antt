-- ===== src/MySql/Response/Database.antt =====
-- When a change of the database takes effect (src/mysql/mysql_con.cpp).
use greensql_fw.Base.{
  ◌>>=◌, ℕ, zero, suc, ◌+◌, ◌≤◌, true, false, not, ◌&&◌, ltb, leb, ◌==◌, if◌then◌else◌, Bytes, [],
  some, length, char_at, ◌≡◌, refl, ap, arith, Bool-cases, inl, inr, le→ltb, drop-all,
}
use greensql_fw.Buffer.{pop}
use greensql_fw.Buffer.Fifo.{take_all}
use greensql_fw.Connection.Server.{Server}
use greensql_fw.MySql.State.{MySqlConnection, packet_size, find_db}
use greensql_fw.MySql.Response.{
  Responses, parse_response, parse_response_packet, look_at, look_loop, is_looked_at, is_error,
  change_db, waiting, pop_rest,
}

looked_at-change :
    (s : MySqlConnection) (bytes : Bytes) → s.last_command_id ≡ 2 → is_looked_at s bytes ≡ true
unfolding is_looked_at
looked_at-change s bytes e = ground (arith, e)

-- What one packet leaves of a connection that is past the greeting.
abbrev settled : Server → MySqlConnection → Bytes → MySqlConnection
settled server s bytes =
    if is_error (char_at bytes 4) (length bytes) (length bytes) then s else change_db server s

change_db-new :
    (server : Server) (s : MySqlConnection)
    → s.last_command_id ≡ 2
    → ((change_db server s).db_name ≡ s.db_new_name)
      × ((change_db server s).db ≡ find_db server s.db_new_name)
unfolding change_db
change_db-new server s c =
    let asked : (s.last_command_id == 2) ≡ true = ground (arith, c) in rw asked (refl, refl)

settled_db :
    (server : Server) (s : MySqlConnection) (bytes : Bytes)
    → s.last_command_id ≡ 2
    → ((settled server s bytes).db_name ≡ (
        if is_error (char_at bytes 4) (length bytes) (length bytes)
        then s.db_name
        else s.db_new_name))
      × ((settled server s bytes).db ≡ (
          if is_error (char_at bytes 4) (length bytes) (length bytes)
          then s.db
          else find_db server s.db_new_name))
settled_db server s bytes c =
    elim (Bool-cases (is_error (char_at bytes 4) (length bytes) (length bytes))) [
      | inl bad ↦ rw bad (refl, refl)
      | inr good ↦ rw good (change_db-new server s c)
    ]

packet_settled :
    (server : Server) (s : MySqlConnection) (bytes version : Bytes)
    → s.first_request ≡ false
    → parse_response_packet server (waiting s bytes [] version) bytes (length bytes)
      ≡ some (waiting (settled server s bytes) bytes [] version)
unfolding parse_response_packet waiting
packet_settled server s bytes version f =
    let past : (s.first_request && ltb 23 (length bytes) && leb (length bytes) (length bytes))
        ≡ false =
      ground (arith, f) in
    rw past (elim (Bool-cases (is_error (char_at bytes 4) (length bytes) (length bytes))) [
      | inl bad ↦ rw bad
      | inr good ↦ rw good
    ])

-- The whole buffer goes to the client.
abbrev all_of : MySqlConnection → Bytes → Bytes → Responses
all_of next bytes version = record {
  connection = next;
  response_in = [];
  response = bytes;
  db_srv_version = version;
  is_cut = false;
}

pop_rest-all :
    (next : MySqlConnection) (bytes version : Bytes)
    → 1 ≤ length bytes
    → pop_rest (waiting next bytes [] version, length bytes) ≡ all_of next bytes version
unfolding pop_rest waiting pop
pop_rest-all next bytes version l =
    let some_bytes : (length bytes == 0) ≡ false = ground (arith, l) in
    rw (some_bytes, drop-all (length bytes) bytes (omega arith), take_all bytes)

look_loop-one :
    (fuel : ℕ) (server : Server) (s next : MySqlConnection) (bytes version : Bytes)
    → 1 ≤ fuel
    → 1 ≤ length bytes
    → parse_response_packet server (waiting s bytes [] version) bytes (length bytes)
      ≡ some (waiting next bytes [] version)
    → (look_loop fuel server bytes (waiting s bytes [] version) 0 (length bytes)
        >>= (λ r. some (pop_rest r)))
      ≡ some (all_of (record next { second_packet = false }) bytes version)
unfolding look_loop waiting
look_loop-one zero server s next bytes version h l e = absurd (omega arith)
look_loop-one (suc fuel) server s next bytes version h l e =
    let sum : 0 + length bytes ≡ length bytes = omega arith in
    let last : not (ltb (length bytes + 5) (length bytes)) ≡ true = ground arith in
    rw (e, sum, last)
      (ap some (pop_rest-all (record next { second_packet = false }) bytes version l))

-- The answer to a command that changes the database, in one packet of seven bytes at least, of a
-- connection that is past the greeting: it goes to the client as it came, and the name and the
-- settings of the new database apply from then on, unless the answer is an error of the server, on
-- which those of the old one stay.
pub parse_response_database :
    (server : Server) (s : MySqlConnection) (bytes version : Bytes)
    → s.first_request ≡ false
    → s.last_command_id ≡ 2
    → 7 ≤ length bytes
    → packet_size bytes ≡ length bytes
    → (r : Responses) × (parse_response server s bytes [] version ≡ some r)
      × (r.response ≡ bytes)
      × (r.response_in ≡ [])
      × (r.connection.db_name ≡ (
          if is_error (char_at bytes 4) (length bytes) (length bytes)
          then s.db_name
          else s.db_new_name))
      × (r.connection.db ≡ (
          if is_error (char_at bytes 4) (length bytes) (length bytes)
          then s.db
          else find_db server s.db_new_name))
unfolding parse_response look_at
parse_response_database server s bytes version f c l size =
    let s0 = record s { start_response = false } in
    (
      all_of (record (settled server s0 bytes) { second_packet = false }) bytes version,
      rw
          (
            le→ltb (length bytes) 5 (omega arith),
            looked_at-change s bytes c,
            le→ltb (length bytes) 7 l,
            size,
            le→ltb (length bytes) (length bytes) (omega arith),
          )
          (look_loop-one (length bytes) server s0 (settled server s0 bytes) bytes version
            (omega arith) (omega arith) (packet_settled server s0 bytes version f)),
      refl,
      refl,
      (settled_db server s0 bytes c).0,
      (settled_db server s0 bytes c).1,
    )
