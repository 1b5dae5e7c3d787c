-- ===== src/Sockets/Balance.antt =====
-- What a proxy holds open, through its whole life (src/greensql.cpp).
use greensql_fw.Base.{
  ℕ, ◌+◌, ◌-◌, Bool, true, false, not, ◌&&◌, ◌==◌, Bytes, [], ◌∷◌, ◌++◌, List, Option, none, some,
  ◌≡◌, refl, ◌∙◌, arith, Bool-cases, some-eq, inl, inr,
}
use greensql_fw.Sockets.{
  Conn, Sockets, remove, server_cb, server_initialized, serve, close_server_socket, delete_event,
  delete_writer, close_events, close_conn, nth, erase_nth, close_found, close_connection,
  close_conns, close, take_conn,
}
use greensql_fw.Sockets.Accounts.{
  one, writer, count, count-remove, conn_fds, conn_events, is_given, are_given, all_given,
  IsAccounted, returned_pair, Adds,
}

count-delete_event :
    (x fd : ℕ) (events : List ℕ)
    → (fd == 0) ≡ false
    → count x (delete_event fd events) ≡ count x events - one x fd
unfolding delete_event
count-delete_event x fd events h = rw h (count-remove x fd events)

count-delete_writer :
    (x fd : ℕ) (inserted : Bool) (events : List ℕ)
    → (fd == 0) ≡ false
    → count x (delete_writer inserted fd events) ≡ count x events - writer inserted x fd
unfolding delete_writer
count-delete_writer x fd true events h = count-delete_event x fd events h
count-delete_writer x fd false events h = omega arith

-- What the end of a connection takes away.
count-close_events :
    (x : ℕ) (c : Conn) (events : List ℕ)
    → (c.sfd == 0) ≡ false
    → (c.cfd == 0) ≡ false
    → count x (close_events c events)
      ≡ count x events
        - (one x c.sfd
            + writer c.proxy_writer x c.sfd
            + (one x c.cfd + writer c.backend_writer x c.cfd))
unfolding close_events
count-close_events x c events h k =
    let a = delete_event c.sfd events in
    let b = delete_writer c.proxy_writer c.sfd a in
    let d = delete_event c.cfd b in
    omega (
      arith,
      count-delete_event x c.sfd events h,
      count-delete_writer x c.sfd c.proxy_writer a h,
      count-delete_event x c.cfd b k,
      count-delete_writer x c.cfd c.backend_writer d k,
    )

-- The list without a connection.
abbrev pub IsWithout : List Conn → Conn → List Conn → Type 0
IsWithout l c rest =
    ((x : ℕ) → conn_fds x l ≡ one x c.sfd + one x c.cfd + conn_fds x rest)
    × ((x : ℕ)
        → conn_events x l
          ≡ one x c.sfd
            + writer c.proxy_writer x c.sfd
            + (one x c.cfd + writer c.backend_writer x c.cfd)
            + conn_events x rest)
    × (all_given l ≡ true → all_given rest ≡ true)
    × (all_given l ≡ true → ((c.sfd == 0) ≡ false) × ((c.cfd == 0) ≡ false))

pub cons-IsWithout : (c : Conn) (l : List Conn) → IsWithout (c ∷ l) c l
unfolding conn_fds conn_events all_given
cons-IsWithout c l = (λ x. refl, λ x. refl, λ h. ground arith, λ h. (ground arith, ground arith))

pub erase_nth-IsWithout :
    (n : ℕ) (l : List Conn) (c : Conn) → nth n l ≡ some c → IsWithout l c (erase_nth n l)
unfolding nth erase_nth conn_fds conn_events all_given
erase_nth-IsWithout n [] c h = absurd (ground arith)
erase_nth-IsWithout n (d ∷ l) c h = elim (Bool-cases (n == 0)) [
  | inl first ↦ rw (first, ← some-eq (rw first at h)) (cons-IsWithout d l)
  | inr later ↦
      let (fds, events, given, named) = erase_nth-IsWithout (n - 1) l c (rw later at h) in
      rw later (
        λ x. omega (arith, fds x),
        λ x. omega (arith, events x),
        λ k. ground (arith, given),
        λ k. named (ground arith),
      )
]

closed-IsAccounted :
    (base : List ℕ) (s : Sockets) (c : Conn) (rest : List Conn)
    → IsAccounted base s
    → IsWithout s.v_conn c rest
    → IsAccounted base (record (close_conn c s) { v_conn = rest })
unfolding close_conn server_initialized
closed-IsAccounted base s c rest (given, fds, events) (less, fewer, kept, named) = (
  kept given,
  λ x.
      omega (
        arith,
        fds x,
        less x,
        count-remove x c.cfd (remove c.sfd s.fds),
        count-remove x c.sfd s.fds,
      ),
  λ x.
      omega
        (arith, events x, fewer x, count-close_events x c s.events (named given).0 (named given).1),
)

close_found-IsAccounted :
    (base : List ℕ) (o : Option Conn) (n : ℕ) (s : Sockets)
    → nth n s.v_conn ≡ o
    → IsAccounted base s
    → IsAccounted base (close_found o n s)
unfolding close_found
close_found-IsAccounted base none n s e h = h
close_found-IsAccounted base (some c) n s e h =
    closed-IsAccounted base s c (erase_nth n s.v_conn) h (erase_nth-IsWithout n s.v_conn c e)

pub close_connection-IsAccounted :
    (base : List ℕ) (n : ℕ) (s : Sockets)
    → IsAccounted base s
    → IsAccounted base (close_connection n s)
unfolding close_connection
close_connection-IsAccounted base n s h = close_found-IsAccounted base (nth n s.v_conn) n s refl h

close_conns-IsAccounted :
    (base : List ℕ) (l : List Conn) (s : Sockets)
    → s.v_conn ≡ l
    → IsAccounted base s
    → IsAccounted base (close_conns l s) × ((close_conns l s).v_conn ≡ [])
unfolding close_conns server_initialized
close_conns-IsAccounted base [] s e h = (rw (← e) h, refl)
close_conns-IsAccounted base (c ∷ l) s e h =
    close_conns-IsAccounted base l (record (close_conn c s) { v_conn = l }) refl
      (closed-IsAccounted base s c l h (rw e (cons-IsWithout c l)))

pub close_server_socket-IsAccounted :
    (base : List ℕ) (s : Sockets)
    → IsAccounted base s
    → IsAccounted base (close_server_socket s)
      × (server_initialized (close_server_socket s) ≡ false)
unfolding close_server_socket server_initialized
close_server_socket-IsAccounted base s (given, fds, events) =
    elim (Bool-cases (not (s.server_fd == 0) && s.is_init)) [
      | inr closed ↦ rw closed ((given, fds, events), closed)
      | inl serving ↦ rw serving (
        (
          given,
          λ x. omega (arith, rw serving at (fds x), count-remove x s.server_fd s.fds),
          λ x. omega (arith, rw serving at (events x), count-remove x s.server_fd s.events),
        ),
        refl,
      )
    ]

v_conn-close_server_socket : (s : Sockets) → (close_server_socket s).v_conn ≡ s.v_conn
unfolding close_server_socket
v_conn-close_server_socket s = ground arith

pub close-IsAccounted :
    (base : List ℕ) (s : Sockets)
    → IsAccounted base s
    → IsAccounted base (close s) × ((close s).v_conn ≡ []) × (server_initialized (close s) ≡ false)
unfolding close server_initialized
close-IsAccounted base s h =
    let marked = record s { statuses = s.statuses ++ ((s.proxy_id, 0) ∷ []) } in
    let (kept, empty) = close_conns-IsAccounted base s.v_conn marked refl h in
    let (closed, ended) = close_server_socket-IsAccounted base (close_conns s.v_conn marked) kept in
    (closed, v_conn-close_server_socket (close_conns s.v_conn marked) ∙ empty, ended)

pub serve-IsAccounted :
    (base : List ℕ) (p : List ℕ × Option ℕ) (s : Sockets)
    → server_initialized s ≡ false
    → is_given p.1 ≡ true
    → ((x : ℕ) → Adds x p (count x s.fds))
    → IsAccounted base s
    → IsAccounted base (serve p s).0
unfolding serve server_initialized
serve-IsAccounted base (table, none) s idle given adds (all, fds, events) =
    (all, λ x. omega (arith, adds x, fds x), λ x. events x)
serve-IsAccounted base (table, some fd) s idle given adds (all, fds, events) =
    let opens : (not (fd == 0) && true) ≡ true = ground arith in
    (
      all,
      λ x. rw opens (omega (arith, adds x, rw idle at (fds x))),
      λ x. rw opens (unfold count in omega (arith, rw idle at (events x))),
    )

pub take_conn-IsAccounted :
    (base : List ℕ) (p : List ℕ × Option (ℕ × ℕ)) (peer : Bytes) (s : Sockets)
    → ((x : ℕ) → count x p.0 ≡ returned_pair x p.1 + count x s.fds)
    → are_given p.1 ≡ true
    → IsAccounted base s
    → IsAccounted base (take_conn p peer s)
unfolding take_conn server_cb server_initialized conn_fds conn_events all_given count
take_conn-IsAccounted base (table, none) peer s adds given (all, fds, events) =
    (all, λ x. omega (arith, adds x, fds x), λ x. events x)
take_conn-IsAccounted base (table, some (sfd, cfd)) peer s adds given (all, fds, events) =
    (ground arith, λ x. omega (arith, adds x, fds x), λ x. omega (arith, events x))
