-- ===== src/PgSql/Command/Returns.antt =====
-- Packets on which parse_request of src/pgsql/pgsql_con.cpp returns.
use greensql_fw.Base.{
  ℕ, zero, suc, ◌-◌, ◌<◌, Bool, true, false, not, ◌&&◌, ◌||◌, ltb, ◌==◌, Bytes, [], ◌∷◌, ◌++◌, some,
  length, char_at, drop, take, ◌≡◌, ◌≢◌, refl, arith, Bool-cases, inl, inr, le→ltb, drop-char_at,
}
use greensql_fw.Normalization.Loops.{span, skip_while, skip_while-span}
use greensql_fw.Permissions.{DbPermObj}
use greensql_fw.Connection.Server.{Server}
use greensql_fw.Connection.Verdict.{check_query-allowed}
use greensql_fw.Connection.Run.{Run, done}
use greensql_fw.PgSql.State.{PgSqlConnection, c_string, check_original, settle, answer_client}
use greensql_fw.PgSql.Command.{
  parse_one, parse_packet, parse_command, parse_query, is_simple, is_cancel,
}
use greensql_fw.PgSql.Queries.{check_original-settle}

-- A packet other than PGSQL_BIND and PGSQL_PARSE, and with a text that is not empty if it is PGSQL_QUERY.
abbrev pub is_plain : Bytes → Bool
is_plain packet =
    not (char_at packet 0 == 0x42)
    && not (char_at packet 0 == 0x50)
    && (not (char_at packet 0 == 0x51) || not (char_at packet 5 == 0))

-- A connection past the startup message, with permissions.
abbrev pub IsReady : DbPermObj → PgSqlConnection → Type 0
IsReady db s = (s.first_request ≡ false) × (s.db ≡ some db)

-- A packet that is done with.
abbrev pub Returns : DbPermObj → Run (PgSqlConnection × Bool) → Type 0
Returns db r = (next : PgSqlConnection) × (has : Bool) × (r ≡ done (next, has)) × IsReady db next

settle-IsReady :
    (allowed : Bool) (db : DbPermObj) (s : PgSqlConnection)
    → IsReady db s
    → IsReady db (settle allowed s).0
unfolding settle answer_client
settle-IsReady true db s h = h
settle-IsReady false db s h = elim (Bool-cases (length s.response_in == 0)) [
  | inl idle ↦ rw idle h
  | inr busy ↦ rw busy h
]

c_string-ne-nil :
    (bytes : Bytes)
    → 5 < length bytes
    → (char_at bytes 5 == 0) ≡ false
    → (query : Bytes) × (c_string bytes 5 ≡ done query) × (query ≢ [])
unfolding c_string span
c_string-ne-nil bytes l h =
    let within : ltb (length bytes) 5 ≡ false = le→ltb (length bytes) 5 (omega (arith, l)) in
    let rest = drop 6 bytes in
    let text : drop 5 bytes ≡ char_at bytes 5 ∷ rest = drop-char_at bytes 5 l in
    let read : span (λ c. not (c == 0)) (drop 5 bytes) ≡ suc (span (λ c. not (c == 0)) rest) =
      rw (text, h) refl in
    let size : skip_while (λ c. not (c == 0)) bytes 5 - 5 ≡ suc (span (λ c. not (c == 0)) rest) =
      omega (arith, skip_while-span (λ c. not (c == 0)) bytes 5, read) in
    (
      char_at bytes 5 ∷ take (span (λ c. not (c == 0)) rest) rest,
      rw (within, size, text),
      λ e. ground (arith, e),
    )

-- Behind the end there is a zero.
char_at-within : (s : Bytes) (i : ℕ) → (char_at s i == 0) ≡ false → i < length s
char_at-within [] i h = absurd (ground arith)
char_at-within (c ∷ s) zero h = omega arith
char_at-within (c ∷ s) (suc i) h = omega (arith, char_at-within s i h)

check_original-Returns :
    (server : Server) (db : DbPermObj) (s : PgSqlConnection) (query : Bytes)
    → IsReady db s
    → query ≢ []
    → Returns db (
        check_original server (record s { long_response = true; long_response_data = false }) query)
check_original-Returns server db s query (f, d) ne =
    let (pattern, norm, o, e, verdict) =
      check_query-allowed (record server.context { db = db }) query ne in
    let asked = record s {
      long_response = true;
      long_response_data = false;
      original_query = o.pattern;
      actions = s.actions ++ o.actions;
    } in
    (
      (settle o.allowed asked).0,
      (settle o.allowed asked).1,
      check_original-settle server s query db o d e,
      settle-IsReady o.allowed db asked (f, d),
    )

parse_query-Returns :
    (server : Server) (db : DbPermObj) (s : PgSqlConnection) (bytes : Bytes)
    → IsReady db s
    → 5 < length bytes
    → (char_at bytes 5 == 0) ≡ false
    → Returns db (parse_query server s bytes)
unfolding parse_query
parse_query-Returns server db s bytes ready l h =
    let (query, text, ne) = c_string-ne-nil bytes l h in
    rw text (check_original-Returns server db s query ready ne)

parse_command-Returns :
    (server : Server) (db : DbPermObj) (s : PgSqlConnection) (bytes : Bytes)
    → IsReady db s
    → is_plain bytes ≡ true
    → Returns db (parse_command server s bytes)
unfolding parse_command
parse_command-Returns server db s bytes ready plain =
    let no_bind : (char_at bytes 0 == 0x42) ≡ false = ground arith in
    let no_parse : (char_at bytes 0 == 0x50) ≡ false = ground arith in
    elim (Bool-cases (char_at bytes 0 == 0x70)) [
      | inl password ↦ rw password (_, _, refl, ready)
      | inr other ↦ elim (Bool-cases (is_simple (char_at bytes 0))) [
        | inl simple ↦ rw (other, simple) (s, false, refl, ready)
        | inr looked ↦ elim (Bool-cases (char_at bytes 0 == 0x51)) [
          | inr unknown ↦ rw (other, looked, unknown, no_bind, no_parse) (s, false, refl, ready)
          | inl query ↦
              let text : (char_at bytes 5 == 0) ≡ false = ground arith in
              rw (other, looked, query)
                (parse_query-Returns server db s bytes ready (char_at-within bytes 5 text) text)
        ]
      ]
    ]

parse_packet-Returns :
    (first_request : Bool) (server : Server) (db : DbPermObj) (s : PgSqlConnection) (bytes : Bytes)
    (size : ℕ)
    → first_request ≡ false
    → IsReady db s
    → is_plain bytes ≡ true
    → Returns db (parse_packet first_request server s bytes size)
unfolding parse_packet
parse_packet-Returns true server db s bytes size f ready plain = absurd (ground arith)
parse_packet-Returns false server db s bytes size f ready plain =
    elim (Bool-cases (is_cancel bytes size)) [
      | inl sixteen ↦ rw sixteen (s, false, refl, ready)
      | inr other ↦ rw other (parse_command-Returns server db s bytes ready plain)
    ]

pub parse_one-Returns :
    (server : Server) (db : DbPermObj) (s : PgSqlConnection) (bytes : Bytes) (size : ℕ)
    → IsReady db s
    → is_plain bytes ≡ true
    → Returns db (parse_one server s bytes size)
unfolding parse_one
parse_one-Returns server db s bytes size ready plain =
    parse_packet-Returns s.first_request server db s bytes size ready.0 ready plain
