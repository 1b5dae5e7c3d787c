-- ===== src/PgSql/Forward.antt =====
-- Which bytes parseRequest of src/pgsql/pgsql_con.cpp hands on to the server.
use greensql_fw.Base.{
  ℕ, zero, suc, ◌+◌, ◌%◌, Bool, true, false, ◌||◌, ltb, ◌==◌, if◌then◌else◌, Bytes, [], ◌++◌,
  length, take, drop, ◌≡◌, refl, sym, ◌∙◌, ap, arith, Bool-cases, inl, inr, take-append-drop,
  drop-all,
}
use greensql_fw.Connection.Server.{Server}
use greensql_fw.Buffer.{pop}
use greensql_fw.PgSql.{Requests, packet_loop, parse_request, packets, first_packet, ignore_false}
use greensql_fw.Connection.Run.{Run, done, run-done, done-eq}
use greensql_fw.PgSql.State.{PgSqlConnection, u64_mod, be32, to_size, packet_size}
use greensql_fw.PgSql.Command.{parse_one}

-- Where the loop stops.
stop_at : ℕ → Bytes → ℕ → ℕ → ℕ
stop_at zero bytes start size = start
stop_at (suc fuel) bytes start size =
    let behind = (start + size) % u64_mod in
    let rest = stop_at fuel bytes behind (packet_size bytes behind) in
    if ltb (length bytes) behind
    then start
    else if behind == length bytes || ltb (length bytes) (behind + 5)
    then behind
    else rest

packet_loop-stop :
    (fuel : ℕ) (server : Server) (bytes : Bytes) (s next : PgSqlConnection) (has has' : Bool)
    (start size behind : ℕ)
    → packet_loop fuel server bytes s has start size ≡ done (next, has', behind)
    → behind ≡ stop_at fuel bytes start size
unfolding packet_loop stop_at
packet_loop-stop zero server bytes s next has has' start size behind h = absurd (ground arith)
packet_loop-stop (suc fuel) server bytes s next has has' start size behind h =
    let b = (start + size) % u64_mod in
    elim (Bool-cases (ltb (length bytes) b)) [
      | inl out ↦ rw out (let last = (rw out at h) in ground arith)
      | inr within ↦
          let ((after, answered), e, g) =
            run-done (ignore_false s (parse_one server s (drop start bytes) size)) _ _
              (rw within at h) in
          elim (Bool-cases (b == length bytes || ltb (length bytes) (b + 5))) [
            | inl stop ↦ rw (within, stop) (let last = (rw stop at g) in ground arith)
            | inr more ↦
                rw (within, more)
                  (packet_loop-stop fuel server bytes after next (has || answered) has' b
                    (packet_size bytes b) behind (rw more at g))
          ]
    ]

abbrev IsSplit : Requests → Bytes → ℕ → Type 0
IsSplit r bytes n = (r.request ≡ take n bytes) × (r.request_in ≡ drop n bytes)

IsSplit-eq :
    {r r' : Requests} (bytes : Bytes) (n : ℕ)
    → Run.done r ≡ done r'
    → IsSplit r bytes n
    → IsSplit r' bytes n
IsSplit-eq bytes n h (p, q) =
    let same = done-eq h in
    (sym (ap (λ r. r.request) same) ∙ p, sym (ap (λ r. r.request_in) same) ∙ q)

-- How many bytes the packets hand on.
packets_size : Bool → Bytes → ℕ
packets_size true bytes = if ltb (length bytes) (to_size (be32 bytes 0)) then 0 else length bytes
packets_size false bytes = stop_at (length bytes + 1) bytes 0 (packet_size bytes 0)

packets-IsSplit :
    (first_request : Bool) (server : Server) (s : PgSqlConnection) (bytes : Bytes) (r : Requests)
    → packets first_request server s bytes [] ≡ done r
    → IsSplit r bytes (packets_size first_request bytes)
unfolding packets packets_size first_packet pop
packets-IsSplit true server s bytes r h =
    elim (Bool-cases (ltb (length bytes) (to_size (be32 bytes 0)))) [
      | inl part ↦ rw part (IsSplit-eq bytes 0 (rw part at h) (refl, refl))
      | inr whole ↦
          let ((next, has), e, g) =
            run-done (parse_one server s bytes (to_size (be32 bytes 0))) _ _ (rw whole at h) in
          rw whole (IsSplit-eq bytes (length bytes) g (refl, refl))
    ]
packets-IsSplit false server s bytes r h =
    let ((next, has, behind), e, g) =
      run-done (packet_loop (length bytes + 1) server bytes s false 0 (packet_size bytes 0)) _ _
        h in
    let stop =
      packet_loop-stop (length bytes + 1) server bytes s next false has 0 (packet_size bytes 0)
        behind e in
    IsSplit-eq bytes _ g (rw (← stop) (refl, refl))

-- How many bytes are handed on, for a buffer that does not hold eight bytes.
handed : Bool → Bytes → ℕ
handed first_request bytes = if ltb (length bytes) 5 then 0 else packets_size first_request bytes

parse_request-IsSplit :
    (server : Server) (s : PgSqlConnection) (bytes : Bytes) (r : Requests)
    → (length bytes == 8) ≡ false
    → parse_request server s bytes [] ≡ done r
    → IsSplit r bytes (handed s.first_request bytes)
unfolding parse_request handed
parse_request-IsSplit server s bytes r ne h = elim (Bool-cases (ltb (length bytes) 5)) [
  | inl short ↦ rw short (IsSplit-eq bytes 0 (rw short at h) (refl, refl))
  | inr long ↦ rw long (packets-IsSplit s.first_request server s bytes r (rw (long, ne) at h))
]

parse_request-eight :
    (server : Server) (s : PgSqlConnection) (bytes : Bytes) (r : Requests)
    → length bytes ≡ 8
    → parse_request server s bytes [] ≡ done r
    → (r.request ≡ []) × (r.request_in ≡ [])
unfolding parse_request
parse_request-eight server s bytes r e h =
    let same = done-eq (rw e at h) in
    (
      sym (ap (λ r. r.request) same),
      sym (ap (λ r. r.request_in) same) ∙ drop-all 8 bytes (omega arith),
    )

-- What a call that returns hands on to the server depends on the bytes of the client and on whether
-- a startup message is due, not on what check_query says of the queries, and no byte is lost or
-- changed, but where the buffer holds eight bytes: these are dropped, whatever they are.
pub parse_request_independent :
    (server server' : Server) (s s' : PgSqlConnection) (bytes : Bytes) (r r' : Requests)
    → s.first_request ≡ s'.first_request
    → parse_request server s bytes [] ≡ done r
    → parse_request server' s' bytes [] ≡ done r'
    → (r.request ≡ r'.request)
      × (r.request_in ≡ r'.request_in)
      × (r.request ++ r.request_in ≡ (if length bytes == 8 then [] else bytes))
parse_request_independent server server' s s' bytes r r' f h h' =
    elim (Bool-cases (length bytes == 8)) [
      | inl eight ↦
          let (p, q) = parse_request-eight server s bytes r (ground (arith, eight)) h in
          let (p', q') = parse_request-eight server' s' bytes r' (ground (arith, eight)) h' in
          rw eight (p ∙ sym p', q ∙ sym q', rw (p, q))
      | inr other ↦
          let (p, q) = parse_request-IsSplit server s bytes r other h in
          let (p', q') = parse_request-IsSplit server' s' bytes r' other h' in
          let same = ap (λ b. handed b bytes) f in
          rw other (
            p ∙ ap (λ n. take n bytes) same ∙ sym p',
            q ∙ ap (λ n. drop n bytes) same ∙ sym q',
            rw (p, q) (take-append-drop (handed s.first_request bytes) bytes),
          )
    ]
