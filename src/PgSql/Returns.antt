-- ===== src/PgSql/Returns.antt =====
-- Buffers on which parseRequest of src/pgsql/pgsql_con.cpp returns.
use greensql_fw.Base.{
  ℕ, zero, suc, ◌+◌, ◌<◌, Bool, true, false, ◌||◌, ltb, ◌==◌, Bytes, [], length, drop, some, ◌≡◌,
  refl, arith, Bool-cases, inl, inr, ltb→le,
}
use greensql_fw.Buffer.{pop}
use greensql_fw.Permissions.{DbPermObj}
use greensql_fw.Connection.Server.{Server}
use greensql_fw.Connection.Run.{done}
use greensql_fw.PgSql.{Requests, packet_loop, ignore_false, packets, parse_request}
use greensql_fw.PgSql.State.{PgSqlConnection, be32, packet_size}
use greensql_fw.PgSql.Border.{Border, start, behind, IsSane, Border-le, sum-sane}
use greensql_fw.PgSql.Command.Returns.{is_plain, IsReady, parse_one-Returns}

-- Each packet of the buffer is plain.
abbrev pub IsPlain : Bytes → Type 0
IsPlain bytes = (i : ℕ) → Border bytes i → is_plain (drop i bytes) ≡ true

packet_loop-returns :
    (fuel : ℕ) (server : Server) (db : DbPermObj) (bytes : Bytes) (s : PgSqlConnection) (has : Bool)
    (i : ℕ)
    → IsReady db s
    → IsSane bytes
    → IsPlain bytes
    → Border bytes i
    → length bytes < i + fuel
    → (last : PgSqlConnection × Bool × ℕ) × (packet_loop fuel server bytes s has i
          (packet_size bytes i)
        ≡ done last)
unfolding packet_loop ignore_false
packet_loop-returns zero server db bytes s has i ready sane plain b l =
    absurd (omega (arith, Border-le b))
packet_loop-returns (suc fuel) server db bytes s has i ready sane plain b l =
    let j = i + (be32 bytes (i + 1) + 1) in
    rw (sum-sane bytes i sane b) (elim (Bool-cases (ltb (length bytes) j)) [
      | inl out ↦ rw out ((s, has, i), refl)
      | inr within ↦
          let border : Border bytes j = behind b (ltb→le (length bytes) j within) in
          let (next, answered, parsed, ready') =
            parse_one-Returns server db s (drop i bytes) (packet_size bytes i) ready (plain i b) in
          rw (within, parsed)
            (elim (Bool-cases (j == length bytes || ltb (length bytes) (j + 5))) [
              | inl stop ↦ rw stop ((next, has || answered, j), refl)
              | inr more ↦ rw more (
                  packet_loop-returns fuel server db bytes next (has || answered) j ready' sane
                    plain border (omega arith))
            ])
    ])

packets-returns :
    (first_request : Bool) (server : Server) (db : DbPermObj) (s : PgSqlConnection) (bytes : Bytes)
    → first_request ≡ false
    → IsReady db s
    → IsSane bytes
    → IsPlain bytes
    → (r : Requests) × (packets first_request server s bytes [] ≡ done r)
unfolding packets pop
packets-returns true server db s bytes f ready sane plain = absurd (ground arith)
packets-returns false server db s bytes f ready sane plain =
    let (last, e) =
      packet_loop-returns (length bytes + 1) server db bytes s false 0 ready sane plain start
        (omega arith) in
    rw e (_, refl)

-- The buffer of a client that is past the startup message, in which each packet names a size that
-- is positive as an int, none is a bind or a parse packet, and no query is empty: parseRequest
-- returns a result, whatever the packets hold else, and however many there are. It neither goes on
-- for ever nor does it meet undefined behaviour.
pub parse_request_returns :
    (server : Server) (db : DbPermObj) (s : PgSqlConnection) (bytes : Bytes)
    → s.first_request ≡ false
    → s.db ≡ some db
    → IsSane bytes
    → IsPlain bytes
    → (r : Requests) × (parse_request server s bytes [] ≡ done r)
unfolding parse_request
parse_request_returns server db s bytes f d sane plain = elim (Bool-cases (ltb (length bytes) 5)) [
  | inl short ↦ rw short (_, refl)
  | inr five ↦ elim (Bool-cases (length bytes == 8)) [
    | inl ssl ↦ rw (five, ssl) (_, refl)
    | inr other ↦
        rw (five, other) (packets-returns s.first_request server db s bytes f (f, d) sane plain)
  ]
]
