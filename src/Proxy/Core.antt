-- ===== src/Proxy/Core.antt =====
-- What the answers of the server leave alone in src/greensql.cpp: the way of the requests.
use greensql_fw.Base.{
  ℕ, Bool, not, ◌==◌, Bytes, ◌++◌, Option, none, some, length, take, ◌≡◌, refl, sym, ◌∙◌, ap, arith,
  Bool-cases, inl, inr,
}
use greensql_fw.Buffer.{chop_back}
use greensql_fw.Connection.Run.{Run, done, closes, undefined, endless, run-done, done-eq}
use greensql_fw.Proxy.Calls.{Protocol}
use greensql_fw.Proxy.{
  Session, Sent, proxy_write_cb, proxy_validate_server_response, push_response, socket_write,
}

-- What belongs to the requests.
pub record Core : Type 0 where
  pub request_in : Bytes
  pub request_out : Bytes
  pub backend_writer : Bool
  pub from_client : Bytes
  pub to_server : Bytes

abbrev pub core : {S : Type 0} → Session S → Core
core s = record {
  request_in = s.request_in;
  request_out = s.request_out;
  backend_writer = s.backend_writer;
  from_client = s.from_client;
  to_server = s.to_server;
}

done-core :
    {S : Type 0} {s s' : Session S} (c : Core) → Run.done s ≡ done s' → core s ≡ c → core s' ≡ c
done-core c h e = ap core (sym (done-eq h)) ∙ e

closes-done : {A B : Type 0} {a : A} → Run.closes ≡ done a → B
closes-done h = absurd (ground arith)

module _ {S : Type 0} (protocol : Protocol S) where
  pub core-proxy_write :
      (answer : Sent) (s s' : Session S)
      → proxy_write_cb protocol answer s ≡ done s'
      → core s' ≡ core s
  unfolding proxy_write_cb
  core-proxy_write answer s s' h =
      elim (Bool-cases (length (protocol.response_out s.connection) == 0)) [
        | inl nothing ↦ done-core (core s) (rw nothing at h) refl
        | inr pending ↦ core-written (socket_write answer) (rw pending at h)
      ]
    where
      core-written :
          (o : Option ℕ)
          → elim o [
            | none ↦ closes
            | some n ↦
                let rest = chop_back (protocol.response_out s.connection) n in
                done (record s {
                  connection = protocol.set_response_out s.connection rest;
                  to_client = s.to_client ++ take n (protocol.response_out s.connection);
                  proxy_writer = not (length rest == 0);
                })
          ]
            ≡ done s'
          → core s' ≡ core s
      core-written none h = closes-done h
      core-written (some n) h = done-core (core s) h refl

  pub core-server_response :
      (answer : Sent) (s s' : Session S)
      → proxy_validate_server_response protocol answer s ≡ done s'
      → core s' ≡ core s
  unfolding proxy_validate_server_response
  core-server_response answer s s' h =
      let ((next, response), e, g) = run-done (protocol.parse_response s.connection) _ _ h in
      elim (Bool-cases (length response == 0)) [
        | inl empty ↦ done-core (core s) (rw empty at g) refl
        | inr more ↦ core-proxy_write answer _ s' (rw more at g)
      ]

  pub core-push_response :
      (answer : Sent) (s s' : Session S)
      → push_response protocol answer s ≡ done s'
      → core s' ≡ core s
  unfolding push_response
  core-push_response answer s s' h =
      elim (Bool-cases (not (length (protocol.response_in s.connection) == 0))) [
        | inl queued ↦ core-server_response answer s s' (rw queued at h)
        | inr free ↦ elim (Bool-cases (length (protocol.response_out s.connection) == 0)) [
          | inl nothing ↦ done-core (core s) (rw (free, nothing) at h) refl
          | inr pending ↦
              core-pushed (proxy_write_cb protocol answer s) (λ t e. core-proxy_write answer s t e)
                (rw (free, pending) at h)
        ]
      ]
    where
      core-pushed :
          (r : Run (Session S))
          → ((t : Session S) → r ≡ done t → core t ≡ core s)
          → elim r [
            | done next ↦ done next
            | closes ↦ done s
            | undefined ↦ undefined
            | endless ↦ endless
          ]
            ≡ done s'
          → core s' ≡ core s
      core-pushed (done t) k h = done-core (core s) h (k t refl)
      core-pushed closes k h = done-core (core s) h refl
      core-pushed undefined k h = absurd (ground arith)
      core-pushed endless k h = absurd (ground arith)
