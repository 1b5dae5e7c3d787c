-- ===== src/PgSql/Response/Whole.antt =====
-- Which bytes parseResponse of src/pgsql/pgsql_con.cpp hands on to the client.
use greensql_fw.Base.{
  ℕ, zero, suc, ◌+◌, ◌≤◌, ◌<◌, false, ltb, Bytes, [], length, take, drop, ◌≡◌, ◌⊎◌, ◌∙◌, arith,
  Bool-cases, inl, inr, le→ltb, ltb→le, ltb→lt,
}
use greensql_fw.Buffer.{pop}
use greensql_fw.Connection.Run.{done}
use greensql_fw.PgSql.State.{PgSqlConnection, be32, packet_size}
use greensql_fw.PgSql.Border.{Border, start, behind, IsSane, Border-le, sum-sane}
use greensql_fw.PgSql.Response.{parse_response, relay_loop, is_looked_at, pop_to}

-- Where the loop for packets that pass through stops, from a border on.
relay_loop-Border :
    (fuel : ℕ) (bytes : Bytes) (i : ℕ)
    → IsSane bytes
    → Border bytes i
    → length bytes < i + fuel
    → (n : ℕ) × (relay_loop fuel bytes i (packet_size bytes i) ≡ done n)
      × Border bytes n
      × ((length bytes ≤ n + 4) ⊎ (length bytes < n + (be32 bytes (n + 1) + 1)))
unfolding relay_loop
relay_loop-Border zero bytes i sane b l = absurd (omega (arith, Border-le b))
relay_loop-Border (suc fuel) bytes i sane b l =
    let j = i + (be32 bytes (i + 1) + 1) in
    let sum = sum-sane bytes i sane b in
    elim (Bool-cases (ltb (length bytes) j)) [
      | inl out ↦ (i, rw (sum, out), b, inr (ltb→lt (length bytes) j out))
      | inr within ↦
          let next : Border bytes j = behind b (ltb→le (length bytes) j within) in
          elim (Bool-cases (ltb (j + 4) (length bytes))) [
            | inl more ↦
                let step : relay_loop (suc fuel) bytes i (packet_size bytes i)
                    ≡ relay_loop fuel bytes j (packet_size bytes j) =
                  rw (sum, within, more) in
                let (n, e, border, rest) = relay_loop-Border fuel bytes j sane next (omega arith) in
                (n, step ∙ e, border, rest)
            | inr last ↦ (j, rw (sum, within, last), next, inl (ltb→le (j + 4) (length bytes) last))
          ]
    ]

-- Answers that need no look, of five bytes at least, whose packets name sizes of their own: the call
-- returns and hands the whole packets at the head of the buffer to the client as they came, and
-- keeps the rest, in which no whole packet is left.
parse_response_whole :
    (s : PgSqlConnection) (bytes : Bytes)
    → IsSane bytes
    → 5 ≤ length bytes
    → is_looked_at s bytes ≡ false
    → (n : ℕ) × Border bytes n
      × ((length bytes ≤ n + 4) ⊎ (length bytes < n + (be32 bytes (n + 1) + 1)))
      × (parse_response s bytes []
          ≡ done record {
            connection = record s { first_response = false };
            response_in = drop n bytes;
            response = take n bytes;
          })
unfolding parse_response pop_to pop
parse_response_whole s bytes sane l looked =
    let (n, e, border, rest) =
      relay_loop-Border (length bytes + 1) bytes 0 sane start (omega arith) in
    (n, border, rest, rw (looked, le→ltb (length bytes) 5 l, e))
