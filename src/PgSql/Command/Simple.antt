-- ===== src/PgSql/Command/Simple.antt =====
-- Packets that are let through without a check (src/pgsql/pgsql_con.cpp).
use greensql_fw.Base.{
  ℕ, true, false, ◌==◌, Bytes, char_at, equal, take, ◌≡◌, ◌∙◌, ap, arith, Bool-cases, inl, inr,
}
use greensql_fw.Connection.Server.{Server}
use greensql_fw.Connection.Run.{done}
use greensql_fw.PgSql.State.{PgSqlConnection, c_string, check_original}
use greensql_fw.PgSql.Command.{
  parse_one, parse_packet, parse_command, parse_query, is_simple, is_cancel, cancel,
}

simple-not_password : (type : ℕ) → is_simple type ≡ true → (type == 0x70) ≡ false
unfolding is_simple
simple-not_password type h = ground arith

pub parse_one-simple :
    (server : Server) (s : PgSqlConnection) (bytes : Bytes) (size : ℕ)
    → s.first_request ≡ false
    → is_simple (char_at bytes 0) ≡ true
    → parse_one server s bytes size ≡ done (s, false)
unfolding parse_one parse_packet parse_command
parse_one-simple server s bytes size f simple =
    ap (λ b. parse_packet b server s bytes size) f ∙ elim (Bool-cases (is_cancel bytes size)) [
      | inl sixteen ↦ rw sixteen
      | inr other ↦ rw (other, simple-not_password (char_at bytes 0) simple, simple)
    ]

-- A packet of 16 bytes is let through unseen, unless it begins as the request to cancel does.
pub parse_one-sixteen :
    (server : Server) (s : PgSqlConnection) (bytes : Bytes)
    → s.first_request ≡ false
    → equal (take 8 bytes) cancel ≡ false
    → parse_one server s bytes 16 ≡ done (s, false)
unfolding parse_one parse_packet is_cancel
parse_one-sixteen server s bytes f other = ap (λ b. parse_packet b server s bytes 16) f ∙ rw other

-- A query is checked up to its first zero.
pub parse_one-query :
    (server : Server) (s : PgSqlConnection) (bytes : Bytes) (size : ℕ) (query : Bytes)
    → s.first_request ≡ false
    → char_at bytes 0 ≡ 0x51
    → (size == 16) ≡ false
    → c_string bytes 5 ≡ done query
    → parse_one server s bytes size
      ≡ check_original server (record s { long_response = true; long_response_data = false }) query
unfolding parse_one parse_packet parse_command parse_query is_cancel is_simple
parse_one-query server s bytes size query f type other text =
    ap (λ b. parse_packet b server s bytes size) f ∙ rw (other, type, text)
