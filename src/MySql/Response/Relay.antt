-- ===== src/MySql/Response/Relay.antt =====
-- Answers of the server that only pass through parseResponse (src/mysql/mysql_con.cpp).
use greensql_fw.Base.{
  ℕ, zero, suc, ◌+◌, ◌≤◌, ◌<◌, false, ltb, Bytes, [], some, length, take, drop, ◌≡◌, ◌⊎◌, arith,
  Bool-cases, inl, inr, le→ltb, ltb→le, ltb→lt,
}
use greensql_fw.Buffer.{pop}
use greensql_fw.Connection.Server.{Server}
use greensql_fw.MySql.State.{MySqlConnection, packet_size}
use greensql_fw.MySql.Response.{relay_loop, is_looked_at, parse_response, waiting}

-- The places between the packets of a text: the sizes that the packets name lead from one to the
-- next, and each packet is there as a whole.
pub data Border (bytes : Bytes) : ℕ → Type 0 where
  start : Border bytes 0
  behind :
      {i : ℕ}
      → Border bytes i
      → i + packet_size (drop i bytes) ≤ length bytes
      → Border bytes (i + packet_size (drop i bytes))

relay_loop-Border :
    (fuel : ℕ) (bytes : Bytes) (i : ℕ)
    → Border bytes i
    → Border bytes (relay_loop fuel bytes i (packet_size (drop i bytes)))
unfolding relay_loop
relay_loop-Border zero bytes i b = b
relay_loop-Border (suc fuel) bytes i b =
    let j = i + packet_size (drop i bytes) in
    elim (Bool-cases (ltb (length bytes) j)) [
      | inl out ↦ rw out b
      | inr within ↦
          let next : Border bytes j = behind b (ltb→le (length bytes) j within) in
          elim (Bool-cases (ltb (j + 5) (length bytes))) [
            | inl more ↦ rw (within, more) (relay_loop-Border fuel bytes j next)
            | inr last ↦ rw (within, last) next
          ]
    ]

-- Nothing that is whole stays back: what is left has less than the head of a packet and two bytes,
-- or is only a part of one.
relay_loop-rest :
    (fuel : ℕ) (bytes : Bytes) (i : ℕ)
    → length bytes ≤ i + fuel
    → let n = relay_loop fuel bytes i (packet_size (drop i bytes)) in
      (length bytes ≤ n + 5) ⊎ (length bytes < n + packet_size (drop n bytes))
unfolding relay_loop
relay_loop-rest zero bytes i l = inl (omega arith)
relay_loop-rest (suc fuel) bytes i l =
    let j = i + packet_size (drop i bytes) in
    elim (Bool-cases (ltb (length bytes) j)) [
      | inl out ↦ rw out (inr (ltb→lt (length bytes) j out))
      | inr within ↦ elim (Bool-cases (ltb (j + 5) (length bytes))) [
        | inl more ↦ rw (within, more) (relay_loop-rest fuel bytes j (omega arith))
        | inr last ↦ rw (within, last) (inl (ltb→le (j + 5) (length bytes) last))
      ]
    ]

-- Answers that need no look, of five bytes at least: the call returns and hands the whole packets at
-- the head of the buffer to the client as they came, and keeps the rest: a packet that is there only
-- in part, or the last five bytes or less, even where these are a whole packet.
pub parse_response_relay :
    (server : Server) (s : MySqlConnection) (bytes version : Bytes)
    → 5 ≤ length bytes
    → is_looked_at s bytes ≡ false
    → (n : ℕ) × Border bytes n
      × ((length bytes ≤ n + 5) ⊎ (length bytes < n + packet_size (drop n bytes)))
      × (parse_response server s bytes [] version
          ≡ some record {
            connection = record s { start_response = false };
            response_in = drop n bytes;
            response = take n bytes;
            db_srv_version = version;
            is_cut = false;
          })
unfolding parse_response waiting pop
parse_response_relay server s bytes version l looked = (
  relay_loop (length bytes) bytes 0 (packet_size bytes),
  relay_loop-Border (length bytes) bytes 0 start,
  relay_loop-rest (length bytes) bytes 0 (omega arith),
  rw (le→ltb (length bytes) 5 l, looked),
)
