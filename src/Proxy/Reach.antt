-- ===== src/Proxy/Reach.antt =====
-- The sessions that events lead to (src/greensql.cpp), and what holds of all of them.
use greensql_fw.Base.{
  Bool, true, ◌==◌, Bytes, ◌++◌, Option, none, some, length, if◌then◌else◌, ◌≡◌, sym, ap, arith,
  Bool-cases, inl, inr,
}
use greensql_fw.Buffer.{append}
use greensql_fw.Connection.Run.{Run, done, closes, then_run, run-done, done-eq}
use greensql_fw.Proxy.Calls.{Parsed, Protocol}
use greensql_fw.Proxy.Core.{Core, core, core-proxy_write, core-server_response, core-push_response}
use greensql_fw.Proxy.{
  Session, Event, Sent, proxy_write_cb, backend_write_cb, push_response,
  proxy_validate_client_request, proxy_validate_server_response, proxy_read, backend_read, proxy_cb,
  backend_cb, socket_read,
}

-- The open sessions that events on the two sockets lead to, in any order.
pub data Reach {S : Type 0} (protocol : Protocol S) (opened : Session S) : Session S → Type 0 where
  at_start : Reach protocol opened opened
  at_proxy :
      {s s' : Session S} (e : Event)
      → Reach protocol opened s
      → proxy_cb protocol e s ≡ done s'
      → Reach protocol opened s'
  at_backend :
      {s s' : Session S} (e : Event)
      → Reach protocol opened s
      → backend_cb protocol e s ≡ done s'
      → Reach protocol opened s'

-- The bytes of a read, and a parse, on what belongs to the requests.
abbrev pub after_read : Core → Bytes → Core
after_read c bytes = record c {
  request_in = append c.request_in bytes (length bytes);
  from_client = c.from_client ++ bytes;
}

abbrev pub queue : Bytes → Core → Core
queue request c = record c { request_out = append c.request_out request (length request) }

abbrev pub after_parse : {S : Type 0} → Core → Parsed S → Core
after_parse c parsed = queue parsed.request (record c { request_in = parsed.request_in })

-- A property of the requests that every call keeps. In front of a write to the server only `Before`
-- need hold.
pub record IsKept {S : Type 0} (protocol : Protocol S) (Before After : Core → Type 0) : Type 0 where
  pub weaken : (c : Core) → After c → Before c
  pub write :
      (forward : Sent) (s s' : Session S)
      → Before (core s)
      → backend_write_cb protocol forward s ≡ done s'
      → After (core s')
  pub read : (c : Core) (bytes : Bytes) → After c → After (after_read c bytes)
  pub parse :
      (c : Core) (connection : S) (parsed : Parsed S)
      → After c
      → protocol.parse_request connection c.request_in ≡ done parsed
      → Before (after_parse c parsed)
  pub parse_none :
      (c : Core) (connection : S) (parsed : Parsed S)
      → After c
      → protocol.parse_request connection c.request_in ≡ done parsed
      → (length parsed.request == 0) ≡ true
      → After (record c { request_in = parsed.request_in })

module _ {S : Type 0} {protocol : Protocol S} {Before After : Core → Type 0}
    (kept : IsKept protocol Before After) where
  client_request-kept :
      (answer forward : Sent) (s s' : Session S)
      → After (core s)
      → proxy_validate_client_request protocol answer forward s ≡ done s'
      → After (core s')
  unfolding proxy_validate_client_request
  client_request-kept answer forward s s' p h =
      let (parsed, e, g) = run-done (protocol.parse_request s.connection s.request_in) _ _ h in
      let next = record s { connection = parsed.connection; request_in = parsed.request_in } in
      let (pushed, e', g') =
        run-done (if parsed.has_response then push_response protocol answer next else done next) _ _
          g in
      let same : core pushed ≡ core next = elim (Bool-cases parsed.has_response) [
        | inl has ↦ core-push_response protocol answer next pushed (rw has at e')
        | inr hasnt ↦ ap core (sym (done-eq (rw hasnt at e')))
      ] in
      elim (Bool-cases (length parsed.request == 0)) [
        | inl empty ↦
            let last = done-eq (rw empty at g') in
            let q = kept.parse_none (core s) s.connection parsed p e empty in rw (← last, same) q
        | inr more ↦
            let queued = ap (queue parsed.request) same in
            let q = kept.parse (core s) s.connection parsed p e in
            kept.write forward _ s' (rw queued q) (rw more at g')
      ]

  proxy_write-kept :
      (answer : Sent) (s s' : Session S)
      → After (core s)
      → proxy_write_cb protocol answer s ≡ done s'
      → After (core s')
  proxy_write-kept answer s s' p h = rw (core-proxy_write protocol answer s s' h) p

  backend_write-kept :
      (forward : Sent) (s s' : Session S)
      → After (core s)
      → backend_write_cb protocol forward s ≡ done s'
      → After (core s')
  backend_write-kept forward s s' p h = kept.write forward s s' (kept.weaken (core s) p) h

  done-kept : (s s' : Session S) → After (core s) → Run.done s ≡ done s' → After (core s')
  done-kept s s' p h = rw (← done-eq h) p

  proxy_read-kept :
      (e : Event) (s s' : Session S)
      → After (core s)
      → proxy_read protocol e s ≡ done s'
      → After (core s')
  unfolding proxy_read
  proxy_read-kept e s s' p h = at_read (socket_read e.read) h
    where
      at_read :
          (o : Option Bytes)
          → elim o [
            | none ↦ closes
            | some bytes ↦
                if length bytes == 0
                then done s
                else proxy_validate_client_request protocol e.answer e.forward (record s {
                  request_in = append s.request_in bytes (length bytes);
                  from_client = s.from_client ++ bytes;
                })
          ]
            ≡ done s'
          → After (core s')
      at_read none h = absurd (ground arith)
      at_read (some bytes) h = elim (Bool-cases (length bytes == 0)) [
        | inl empty ↦ done-kept s s' p (rw empty at h)
        | inr more ↦
            client_request-kept e.answer e.forward _ s' (kept.read (core s) bytes p) (rw more at h)
      ]

  backend_read-kept :
      (e : Event) (s s' : Session S)
      → After (core s)
      → backend_read protocol e s ≡ done s'
      → After (core s')
  unfolding backend_read
  backend_read-kept e s s' p h = at_read (socket_read e.read) h
    where
      at_read :
          (o : Option Bytes)
          → elim o [
            | none ↦ closes
            | some bytes ↦
                let response_in = append (protocol.response_in s.connection) bytes (length bytes) in
                if length bytes == 0
                then done s
                else proxy_validate_server_response protocol e.answer (record s {
                  connection = protocol.set_response_in s.connection response_in;
                  from_server = s.from_server ++ bytes;
                })
          ]
            ≡ done s'
          → After (core s')
      at_read none h = absurd (ground arith)
      at_read (some bytes) h = elim (Bool-cases (length bytes == 0)) [
        | inl empty ↦ done-kept s s' p (rw empty at h)
        | inr more ↦ rw (core-server_response protocol e.answer _ s' (rw more at h)) p
      ]

  -- Both callbacks: a write where the event says so, and then a read.
  two-kept :
      (writable readable : Bool) (write read : Session S → Run (Session S)) (s s' : Session S)
      → ((t t' : Session S) → After (core t) → write t ≡ done t' → After (core t'))
      → ((t t' : Session S) → After (core t) → read t ≡ done t' → After (core t'))
      → After (core s)
      → then_run
          (if writable then write s else done s)
          (λ written. if readable then read written else done written)
        ≡ done s'
      → After (core s')
  two-kept writable readable write read s s' k l p h =
      let (t, e, g) = run-done (if writable then write s else done s) _ _ h in
      let q : After (core t) = elim (Bool-cases writable) [
        | inl w ↦ k s t p (rw w at e)
        | inr w ↦ done-kept s t p (rw w at e)
      ] in
      elim (Bool-cases readable) [
        | inl r ↦ l t s' q (rw r at g)
        | inr r ↦ done-kept t s' q (rw r at g)
      ]

  pub reach-kept :
      (opened s : Session S) → After (core opened) → Reach protocol opened s → After (core s)
  unfolding proxy_cb backend_cb
  reach-kept opened s p at_start = p
  reach-kept opened s p (at_proxy {s = t} e r h) =
      two-kept e.writable e.readable (proxy_write_cb protocol e.write) (proxy_read protocol e) t s
        (proxy_write-kept e.write) (proxy_read-kept e) (reach-kept opened t p r) h
  reach-kept opened s p (at_backend {s = t} e r h) =
      two-kept e.writable e.readable (backend_write_cb protocol e.write) (backend_read protocol e) t
        s (backend_write-kept e.write) (backend_read-kept e) (reach-kept opened t p r) h
