-- ===== src/PgSql/Endless.antt =====
-- When the loop of parseRequest of src/pgsql/pgsql_con.cpp ends.
use greensql_fw.Base.{
  ℕ, zero, suc, Bool, true, false, ◌||◌, ltb, ◌==◌, Bytes, ◌∷◌, length, ◌≡◌, refl, arith,
}
use greensql_fw.Connection.Server.{Server}
use greensql_fw.PgSql.{packet_loop, ignore_false}
use greensql_fw.Connection.Run.{endless}
use greensql_fw.PgSql.State.{PgSqlConnection, packet_size}
use greensql_fw.PgSql.Command.{is_simple}
use greensql_fw.PgSql.Command.Simple.{parse_one-simple}

-- A packet whose length is written as four bytes of 255.
abbrev pub hanging : ℕ → Bytes → Bytes
hanging type rest = type ∷ 255 ∷ 255 ∷ 255 ∷ 255 ∷ rest

packet_size-hanging : (type : ℕ) (rest : Bytes) → packet_size (hanging type rest) 0 ≡ 0
unfolding packet_size
packet_size-hanging type rest = refl

loop_endless :
    (fuel : ℕ) (server : Server) (s : PgSqlConnection) (has : Bool) (type : ℕ) (rest : Bytes)
    → s.first_request ≡ false
    → is_simple type ≡ true
    → packet_loop fuel server (hanging type rest) s has 0 0 ≡ endless
unfolding packet_loop ignore_false
loop_endless zero server s has type rest f simple = refl
loop_endless (suc fuel) server s has type rest f simple =
    let bytes = hanging type rest in
    let within : ltb (length bytes) 0 ≡ false = ground arith in
    let more : (0 == length bytes || ltb (length bytes) 5) ≡ false = ground arith in
    rw (parse_one-simple server s bytes 0 f simple, packet_size-hanging type rest, within, more)
      (loop_endless fuel server s (has || false) type rest f simple)

-- A client that is past the startup message sends, first in the buffer, a packet of a type that is
-- let through at once, whose length is written as -1: the loop does not end, however many rounds it is
-- given. The size that the code adds is 0, so the loop stays at the packet.
pub packet_loop_endless :
    (fuel : ℕ) (server : Server) (s : PgSqlConnection) (type : ℕ) (rest : Bytes)
    → s.first_request ≡ false
    → is_simple type ≡ true
    → packet_loop fuel server (hanging type rest) s false 0 (packet_size (hanging type rest) 0)
      ≡ endless
packet_loop_endless fuel server s type rest f simple =
    rw (packet_size-hanging type rest) (loop_endless fuel server s false type rest f simple)
