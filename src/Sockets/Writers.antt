-- ===== src/Sockets/Writers.antt =====
-- enable_event_writer and disable_event_writer of src/greensql.cpp, on a connection of a proxy.
use greensql_fw.Base.{
  ℕ, ◌+◌, ◌-◌, Bool, true, false, not, ◌&&◌, ◌==◌, if◌then◌else◌, [], ◌∷◌, List, some, ◌≡◌, refl,
  ap, arith, Bool-cases, some-eq, inl, inr,
}
use greensql_fw.Sockets.{Conn, Sockets, remove, nth, erase_nth, server_initialized}
use greensql_fw.Sockets.Accounts.{
  one, writer, count, count-remove, conn_fds, conn_events, all_given, server_fds, IsAccounted,
}
use greensql_fw.Sockets.Balance.{erase_nth-IsWithout}

-- The event for writes to the client, or to the server.
pub enable_event_writer : (proxy : Bool) → Conn → List ℕ → Conn × List ℕ
enable_event_writer true c events =
    if not (c.sfd == 0) && not c.proxy_writer
    then (record c { proxy_writer = true }, c.sfd ∷ events)
    else (c, events)
enable_event_writer false c events =
    if not (c.cfd == 0) && not c.backend_writer
    then (record c { backend_writer = true }, c.cfd ∷ events)
    else (c, events)

pub disable_event_writer : (proxy : Bool) → Conn → List ℕ → Conn × List ℕ
disable_event_writer true c events =
    if not (c.sfd == 0) && c.proxy_writer
    then (record c { proxy_writer = false }, remove c.sfd events)
    else (c, events)
disable_event_writer false c events =
    if not (c.cfd == 0) && c.backend_writer
    then (record c { backend_writer = false }, remove c.cfd events)
    else (c, events)

-- One of the two on the connection at a place of the list.
pub set_nth : ℕ → Conn → List Conn → List Conn
set_nth n c [] = []
set_nth n c (d ∷ l) = let rest = set_nth (n - 1) c l in if n == 0 then c ∷ l else d ∷ rest

pub put_writer : ℕ → Conn × List ℕ → Sockets → Sockets
put_writer n (c, events) s = record s { v_conn = set_nth n c s.v_conn; events = events }

-- The two functions change neither socket, and count the event that they add or delete.
abbrev IsRewritten : Conn → List ℕ → Conn × List ℕ → Type 0
IsRewritten c events (d, next) =
    (d.sfd ≡ c.sfd)
    × (d.cfd ≡ c.cfd)
    × ((x : ℕ) (n : ℕ)
        → count x events ≡ n + (writer c.proxy_writer x c.sfd + writer c.backend_writer x c.cfd)
        → count x next ≡ n + (writer d.proxy_writer x d.sfd + writer d.backend_writer x d.cfd))

enable_event_writer-IsRewritten :
    (proxy : Bool) (c : Conn) (events : List ℕ)
    → IsRewritten c events (enable_event_writer proxy c events)
unfolding enable_event_writer count
enable_event_writer-IsRewritten true c events =
    elim (Bool-cases (not (c.sfd == 0) && not c.proxy_writer)) [
      | inr kept ↦ rw kept (refl, refl, λ x n h. h)
      | inl added ↦
          let off : c.proxy_writer ≡ false = ground arith in
          rw added (refl, refl, λ x n h. omega (arith, rw off at h))
    ]
enable_event_writer-IsRewritten false c events =
    elim (Bool-cases (not (c.cfd == 0) && not c.backend_writer)) [
      | inr kept ↦ rw kept (refl, refl, λ x n h. h)
      | inl added ↦
          let off : c.backend_writer ≡ false = ground arith in
          rw added (refl, refl, λ x n h. omega (arith, rw off at h))
    ]

disable_event_writer-IsRewritten :
    (proxy : Bool) (c : Conn) (events : List ℕ)
    → IsRewritten c events (disable_event_writer proxy c events)
unfolding disable_event_writer
disable_event_writer-IsRewritten true c events =
    elim (Bool-cases (not (c.sfd == 0) && c.proxy_writer)) [
      | inr kept ↦ rw kept (refl, refl, λ x n h. h)
      | inl deleted ↦
          let on : c.proxy_writer ≡ true = ground arith in
          rw deleted (refl, refl, λ x n h. omega (arith, rw on at h, count-remove x c.sfd events))
    ]
disable_event_writer-IsRewritten false c events =
    elim (Bool-cases (not (c.cfd == 0) && c.backend_writer)) [
      | inr kept ↦ rw kept (refl, refl, λ x n h. h)
      | inl deleted ↦
          let on : c.backend_writer ≡ true = ground arith in
          rw deleted (refl, refl, λ x n h. omega (arith, rw on at h, count-remove x c.cfd events))
    ]

set_nth-counts :
    (n : ℕ) (d : Conn) (l : List Conn) (c : Conn)
    → nth n l ≡ some c
    → ((x : ℕ)
        → conn_fds x (set_nth n d l) ≡ one x d.sfd + one x d.cfd + conn_fds x (erase_nth n l))
      × ((x : ℕ)
          → conn_events x (set_nth n d l)
            ≡ one x d.sfd
              + writer d.proxy_writer x d.sfd
              + (one x d.cfd + writer d.backend_writer x d.cfd)
              + conn_events x (erase_nth n l))
      × (all_given l ≡ true → d.sfd ≡ c.sfd → d.cfd ≡ c.cfd → all_given (set_nth n d l) ≡ true)
unfolding nth erase_nth set_nth conn_fds conn_events all_given
set_nth-counts n d [] c h = absurd (ground arith)
set_nth-counts n d (e ∷ l) c h = elim (Bool-cases (n == 0)) [
  | inl first ↦
      let same : e ≡ c = some-eq (rw first at h) in
      rw first (λ x. refl, λ x. refl, λ k p q. rw (p, q, ← same) k)
  | inr later ↦
      let (fds, events, given) = set_nth-counts (n - 1) d l c (rw later at h) in
      rw later (
        λ x. omega (arith, fds x),
        λ x. omega (arith, events x),
        λ k p q. (let tail = given (ground arith) p q in ground arith),
      )
]

put_writer-IsAccounted :
    (base : List ℕ) (n : ℕ) (c : Conn) (p : Conn × List ℕ) (s : Sockets)
    → nth n s.v_conn ≡ some c
    → IsRewritten c s.events p
    → IsAccounted base s
    → IsAccounted base (put_writer n p s)
unfolding put_writer server_initialized
put_writer-IsAccounted base n c (d, next) s h (same_sfd, same_cfd, counts) (given, fds, events) =
    let (fds', events', given') = set_nth-counts n d s.v_conn c h in
    let (without, fewer, k, l) = erase_nth-IsWithout n s.v_conn c h in
    (
      given' given same_sfd same_cfd,
      λ x. rw (fds' x, same_sfd, same_cfd) (omega (arith, fds x, without x)),
      λ x.
          let m =
            server_fds x s + one x c.sfd + one x c.cfd + conn_events x (erase_nth n s.v_conn) in
          omega (
            arith,
            counts x m (omega (arith, events x, fewer x)),
            events' x,
            ap (one x) same_sfd,
            ap (one x) same_cfd,
          ),
    )

pub enable_event_writer-IsAccounted :
    (base : List ℕ) (n : ℕ) (proxy : Bool) (c : Conn) (s : Sockets)
    → nth n s.v_conn ≡ some c
    → IsAccounted base s
    → IsAccounted base (put_writer n (enable_event_writer proxy c s.events) s)
enable_event_writer-IsAccounted base n proxy c s h =
    put_writer-IsAccounted base n c (enable_event_writer proxy c s.events) s h
      (enable_event_writer-IsRewritten proxy c s.events)

pub disable_event_writer-IsAccounted :
    (base : List ℕ) (n : ℕ) (proxy : Bool) (c : Conn) (s : Sockets)
    → nth n s.v_conn ≡ some c
    → IsAccounted base s
    → IsAccounted base (put_writer n (disable_event_writer proxy c s.events) s)
disable_event_writer-IsAccounted base n proxy c s h =
    put_writer-IsAccounted base n c (disable_event_writer proxy c s.events) s h
      (disable_event_writer-IsRewritten proxy c s.events)
