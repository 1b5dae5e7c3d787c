-- ===== src/MySql/Forward.antt =====
-- Which bytes parseRequest of src/mysql/mysql_con.cpp hands on to the server.
use greensql_fw.Base.{
  bind-some, some-eq, ℕ, zero, suc, ◌+◌, Bool, false, ◌||◌, ltb, ◌==◌, if◌then◌else◌, Bytes, [],
  ◌++◌, some, length, take, drop, ◌≡◌, sym, ◌∙◌, ap, arith, Bool-cases, inl, inr, take-append-drop,
}
use greensql_fw.MySql.{Requests, packet_loop, parse_request}
use greensql_fw.Connection.Server.{Server}
use greensql_fw.MySql.State.{MySqlConnection, packet_size}
use greensql_fw.MySql.Command.{parse_request_packet}

-- Where the loop stops, for packets of `size` bytes in a buffer of `full`.
stop_at : ℕ → ℕ → ℕ → ℕ → ℕ
stop_at zero size full start = start
stop_at (suc fuel) size full start =
    let rest = stop_at fuel size full (start + size) in
    if start + size == full || ltb full (start + size + 7) || ltb full (start + size + size)
    then start + size
    else rest

packet_loop-stop :
    (fuel : ℕ) (server : Server) (bytes : Bytes) (s next : MySqlConnection) (has has' : Bool)
    (start behind : ℕ)
    → packet_loop fuel server bytes s has start ≡ some (next, has', behind)
    → behind ≡ stop_at fuel (packet_size bytes) (length bytes) start
unfolding packet_loop stop_at
packet_loop-stop zero server bytes s next has has' start behind h = ground arith
packet_loop-stop (suc fuel) server bytes s next has has' start behind h =
    let ((after, answered), e, g) =
      bind-some (parse_request_packet server s bytes (packet_size bytes)) _ _ h in
    elim (Bool-cases (
      start + packet_size bytes == length bytes
      || ltb (length bytes) (start + packet_size bytes + 7)
      || ltb (length bytes) (start + packet_size bytes + packet_size bytes))) [
        | inl stop ↦ rw stop (let last = (rw stop at g) in ground arith)
        | inr more ↦ rw more (
            packet_loop-stop fuel server bytes after next (has || answered) has' _ behind
              (rw more at g))
      ]

forwarded : Bytes → ℕ
forwarded bytes =
    if ltb (length bytes) 3
    then 0
    else if ltb (length bytes) (packet_size bytes)
    then 0
    else stop_at (length bytes) (packet_size bytes) (length bytes) 0

parse_request-forwarded :
    (server : Server) (s : MySqlConnection) (bytes : Bytes) (r : Requests)
    → parse_request server s bytes [] ≡ some r
    → (r.request ≡ take (forwarded bytes) bytes) × (r.request_in ≡ drop (forwarded bytes) bytes)
unfolding parse_request forwarded
parse_request-forwarded server s bytes r h = elim (Bool-cases (ltb (length bytes) 3)) [
  | inl short ↦
      let same = some-eq (rw short at h) in
      rw short (sym (ap (λ r. r.request) same), sym (ap (λ r. r.request_in) same))
  | inr long ↦ elim (Bool-cases (ltb (length bytes) (packet_size bytes))) [
    | inl part ↦
        let same = some-eq (rw (long, part) at h) in
        rw (long, part) (sym (ap (λ r. r.request) same), sym (ap (λ r. r.request_in) same))
    | inr whole ↦
        let ((next, has, behind), e, g) =
          bind-some (packet_loop (length bytes) server bytes s false 0) _ _
            (rw (long, whole) at h) in
        let stop = packet_loop-stop (length bytes) server bytes s next false has 0 behind e in
        let same = some-eq g in
        rw (long, whole, ← stop) (sym (ap (λ r. r.request) same), sym (ap (λ r. r.request_in) same))
  ]
]

-- What goes to the server depends on the bytes of the client alone, not on the state of the
-- connection and not on what check_query says of the queries in them, and no byte is lost or changed:
-- the text that goes to the server and what stays in the buffer are the buffer. The calls return.
pub parse_request_same :
    (server server' : Server) (s s' : MySqlConnection) (bytes : Bytes) (r r' : Requests)
    → parse_request server s bytes [] ≡ some r
    → parse_request server' s' bytes [] ≡ some r'
    → (r.request ≡ r'.request)
      × (r.request_in ≡ r'.request_in)
      × (r.request ++ r.request_in ≡ bytes)
parse_request_same server server' s s' bytes r r' h h' =
    let (p, q) = parse_request-forwarded server s bytes r h in
    let (p', q') = parse_request-forwarded server' s' bytes r' h' in
    (p ∙ sym p', q ∙ sym q', rw (p, q) (take-append-drop (forwarded bytes) bytes))
