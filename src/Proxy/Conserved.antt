-- ===== src/Proxy/Conserved.antt =====
-- Which bytes of a client reach the server by way of the buffers of src/greensql.cpp.
use greensql_fw.Base.{
  ℕ, true, not, ◌==◌, Bytes, [], ◌∷◌, ◌++◌, Option, none, some, length, take, if◌then◌else◌, ◌≡◌,
  refl, sym, ◌∙◌, ap, arith, Bool-cases, inl, inr, append_assoc,
}
use greensql_fw.Buffer.{chop_back, pop}
use greensql_fw.Buffer.Fifo.{append-length, pop-split}
use greensql_fw.Connection.Run.{done, closes, of_option, run-done, done-eq}
use greensql_fw.Connection.Server.{Server}
use greensql_fw.MySql.{parse_request}
use greensql_fw.MySql.Forward.{parse_request_same}
use greensql_fw.MySql.State.{MySqlConnection}
use greensql_fw.Proxy.Calls.{Parsed, Protocol}
use greensql_fw.Proxy.Core.{Core, core}
use greensql_fw.Proxy.Instances.{my_sql}
use greensql_fw.Proxy.Pending.{opened}
use greensql_fw.Proxy.Reach.{Reach, IsKept, reach-kept, after_read, after_parse}
use greensql_fw.Proxy.{Session, Sent, backend_write_cb, socket_write}

-- What was read from the client was sent to the server, or waits in a buffer, in the order of the
-- read.
abbrev IsConserved : Core → Type 0
IsConserved c = c.to_server ++ (c.request_out ++ c.request_in) ≡ c.from_client

-- A parse loses no byte and changes none.
abbrev IsLossless : {S : Type 0} → Protocol S → Type 0
IsLossless {S = S} protocol =
    (connection : S) (bytes : Bytes) (parsed : Parsed S)
    → protocol.parse_request connection bytes ≡ done parsed
    → parsed.request ++ parsed.request_in ≡ bytes

nil-of-length : (s : Bytes) → (length s == 0) ≡ true → s ≡ []
nil-of-length [] h = refl
nil-of-length (c ∷ s) h = absurd (ground (arith, h))

write-IsConserved :
    (c : Core) (n : ℕ)
    → IsConserved c
    → (c.to_server ++ take n c.request_out) ++ (chop_back c.request_out n ++ c.request_in)
      ≡ c.from_client
unfolding pop
write-IsConserved c n p =
    let (split, rest) = pop-split c.request_out [] n in
    let joined : take n c.request_out ++ chop_back c.request_out n ≡ c.request_out =
      ap (λ u. take n c.request_out ++ u) rest ∙ split in
    append_assoc c.to_server (take n c.request_out) (chop_back c.request_out n ++ c.request_in)
    ∙ ap (λ u. c.to_server ++ u)
        (sym (append_assoc (take n c.request_out) (chop_back c.request_out n) c.request_in)
          ∙ ap (λ u. u ++ c.request_in) joined)
    ∙ p

read-IsConserved : (c : Core) (bytes : Bytes) → IsConserved c → IsConserved (after_read c bytes)
read-IsConserved c bytes p = rw (append-length c.request_in bytes) (
    ap (λ u. c.to_server ++ u) (sym (append_assoc c.request_out c.request_in bytes))
    ∙ sym (append_assoc c.to_server (c.request_out ++ c.request_in) bytes)
    ∙ ap (λ u. u ++ bytes) p)

parse-IsConserved :
    {S : Type 0} (c : Core) (parsed : Parsed S)
    → parsed.request ++ parsed.request_in ≡ c.request_in
    → IsConserved c
    → IsConserved (after_parse c parsed)
parse-IsConserved c parsed h p = rw (append-length c.request_out parsed.request) (
    ap (λ u. c.to_server ++ u)
      (append_assoc c.request_out parsed.request parsed.request_in ∙ ap (λ u. c.request_out ++ u) h)
    ∙ p)

module _ {S : Type 0} (protocol : Protocol S) (lossless : IsLossless protocol) where
  backend_write-IsConserved :
      (forward : Sent) (s s' : Session S)
      → IsConserved (core s)
      → backend_write_cb protocol forward s ≡ done s'
      → IsConserved (core s')
  unfolding backend_write_cb
  backend_write-IsConserved forward s s' p h = elim (Bool-cases (length s.request_out == 0)) [
    | inl nothing ↦ rw (← done-eq (rw nothing at h)) p
    | inr pending ↦ at_write (socket_write forward) (rw pending at h)
  ]
    where
      at_write :
          (o : Option ℕ)
          → elim o [
            | none ↦
                if protocol.first_response s.connection
                then done (record s { backend_writer = true })
                else closes
            | some n ↦
                let rest = chop_back s.request_out n in
                done (record s {
                  request_out = rest;
                  to_server = s.to_server ++ take n s.request_out;
                  backend_writer = not (length rest == 0);
                })
          ]
            ≡ done s'
          → IsConserved (core s')
      at_write none h = elim (Bool-cases (protocol.first_response s.connection)) [
        | inl first ↦ rw (← done-eq (rw first at h)) p
        | inr past ↦ absurd (let last = (rw past at h) in ground arith)
      ]
      at_write (some n) h = rw (← done-eq h) (write-IsConserved (core s) n p)

  IsConserved-IsKept : IsKept protocol IsConserved IsConserved
  IsConserved-IsKept = record {
    weaken = λ c p. p;
    write = backend_write-IsConserved;
    read = λ c bytes p. read-IsConserved c bytes p;
    parse = λ c connection parsed p h.
        parse-IsConserved c parsed (lossless connection c.request_in parsed h) p;
    parse_none = λ c connection parsed p h e.
        rw
          (ap (λ u. u ++ parsed.request_in) (sym (nil-of-length parsed.request e))
            ∙ lossless connection c.request_in parsed h)
          p;
  }

option-done : {A : Type 0} (o : Option A) (a : A) → of_option o ≡ done a → o ≡ some a
option-done none a h = absurd (ground arith)
option-done (some b) a h = ap some (done-eq h)

my_sql-IsLossless : (server : Server) → IsLossless (my_sql server)
unfolding my_sql
my_sql-IsLossless server connection bytes parsed h =
    let (r, e, g) = run-done (of_option (parse_request server connection bytes [])) _ _ h in
    let e' = option-done (parse_request server connection bytes []) r e in
    let (p, q, whole) = parse_request_same server server connection connection bytes r r e' e' in
    ap (λ p. p.request ++ p.request_in) (sym (done-eq g)) ∙ whole

-- In every session of a MySQL client that events lead to, whatever check_query says of the queries
-- and whatever the sockets answer: what was read from the client has been sent to the server, or
-- waits for it in the two buffers of requests, byte for byte in the order of the read. Nothing that
-- is sent was not read, and a query that is not allowed is not kept from the server.
pub my_sql-Reach_conserved :
    (server : Server) (connection : MySqlConnection) (s : Session MySqlConnection)
    → Reach (my_sql server) (opened connection) s
    → s.to_server ++ (s.request_out ++ s.request_in) ≡ s.from_client
my_sql-Reach_conserved server connection s r =
    reach-kept (IsConserved-IsKept (my_sql server) (my_sql-IsLossless server)) (opened connection) s
      refl r
