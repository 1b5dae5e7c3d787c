-- ===== src/Proxy/Pending.antt =====
-- When the event for a write to the server is added (src/greensql.cpp).
use greensql_fw.Base.{
  ℕ, true, false, not, ◌==◌, [], ◌++◌, Option, none, some, length, take, if◌then◌else◌, ◌≡◌, refl,
  sym, ap, arith, Bool-cases, inl, inr,
}
use greensql_fw.Buffer.{chop_back}
use greensql_fw.Connection.Run.{done, closes, done-eq}
use greensql_fw.Proxy.Calls.{Protocol}
use greensql_fw.Proxy.Core.{Core, core}
use greensql_fw.Proxy.Reach.{Reach, IsKept, reach-kept}
use greensql_fw.Proxy.{Session, Sent, backend_write_cb, socket_write}

-- A connection that is accepted: nothing is read or written yet.
abbrev pub opened : {S : Type 0} → S → Session S
opened connection = record {
  connection = connection;
  request_in = [];
  request_out = [];
  proxy_writer = false;
  backend_writer = false;
  from_client = [];
  to_server = [];
  from_server = [];
  to_client = [];
}

abbrev IsArmed : Core → Type 0
IsArmed c = c.backend_writer ≡ not (length c.request_out == 0)

module _ {S : Type 0} (protocol : Protocol S) where
  backend_write-IsArmed :
      (forward : Sent) (s s' : Session S)
      → backend_write_cb protocol forward s ≡ done s'
      → IsArmed (core s')
  unfolding backend_write_cb
  backend_write-IsArmed forward s s' h = elim (Bool-cases (length s.request_out == 0)) [
    | inl nothing ↦ rw (← done-eq (rw nothing at h)) (sym (ap not nothing))
    | inr pending ↦ at_write pending (socket_write forward) (rw pending at h)
  ]
    where
      at_write :
          (length s.request_out == 0) ≡ false
          → (o : Option ℕ)
          → elim o [
            | none ↦
                if protocol.first_response s.connection
                then done (record s { backend_writer = true })
                else closes
            | some n ↦
                let rest = chop_back s.request_out n in
                done (record s {
                  request_out = rest;
                  to_server = s.to_server ++ take n s.request_out;
                  backend_writer = not (length rest == 0);
                })
          ]
            ≡ done s'
          → IsArmed (core s')
      at_write pending none h = elim (Bool-cases (protocol.first_response s.connection)) [
        | inl first ↦ rw (← done-eq (rw first at h)) (sym (ap not pending))
        | inr past ↦ absurd (let last = (rw past at h) in ground arith)
      ]
      at_write pending (some n) h = rw (← done-eq h) refl

  IsArmed-IsKept : IsKept protocol (λ c. Unit {0}) IsArmed
  IsArmed-IsKept = record {
    weaken = λ c p. tt;
    write = λ forward s s' p h. backend_write-IsArmed forward s s' h;
    read = λ c bytes p. p;
    parse = λ c connection parsed p h. tt;
    parse_none = λ c connection parsed p h e. p;
  }

  -- In every session that events lead to, whatever the protocol does with the data and whatever the
  -- sockets answer, the event for a write to the server is added exactly when bytes of requests wait
  -- for it: none is forgotten, and the event does not fire in vain.
  pub backend_writer-Reach :
      (connection : S) (s : Session S)
      → Reach protocol (opened connection) s
      → s.backend_writer ≡ not (length s.request_out == 0)
  backend_writer-Reach connection s r = reach-kept IsArmed-IsKept (opened connection) s refl r
