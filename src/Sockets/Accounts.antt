-- ===== src/Sockets/Accounts.antt =====
-- How often a descriptor is open and watched for, and what the operations of a proxy change of it
-- (src/greensql.cpp).
use greensql_fw.Base.{
  ℕ, ◌+◌, ◌-◌, Bool, true, false, not, ◌&&◌, ◌==◌, if◌then◌else◌, [], ◌∷◌, List, Option, none, some,
  ◌≡◌, refl, ◌∙◌, ap, arith,
}
use greensql_fw.Sockets.{
  Conn, Sockets, Connected, connected, connect_later, connect_failed, Listening, Accepting, remove,
  new_socket, listen_on, connect_to, pair_up, server_socket, client_socket, socket_accept,
  prepare_client, prepare_new_conn, server_initialized,
}

abbrev pub one : ℕ → ℕ → ℕ
one x y = if y == x then 1 else 0

unfoldable pub count : ℕ → List ℕ → ℕ
count x [] = 0
count x (y ∷ l) = one x y + count x l

pub count-remove : (x y : ℕ) (l : List ℕ) → count x (remove y l) ≡ count x l - one x y
unfolding count remove
count-remove x y [] = ground arith
count-remove x y (z ∷ l) = ground (arith, count-remove x y l)

-- The sockets of the connections, as often as they are in the list.
unfoldable pub conn_fds : ℕ → List Conn → ℕ
conn_fds x [] = 0
conn_fds x (c ∷ l) = one x c.sfd + one x c.cfd + conn_fds x l

-- What an event for writes counts, if it is added.
abbrev pub writer : Bool → ℕ → ℕ → ℕ
writer inserted x fd = if inserted then one x fd else 0

-- The events of the connections.
unfoldable pub conn_events : ℕ → List Conn → ℕ
conn_events x [] = 0
conn_events x (c ∷ l) =
    one x c.sfd
    + writer c.proxy_writer x c.sfd
    + (one x c.cfd + writer c.backend_writer x c.cfd)
    + conn_events x l

abbrev pub server_fds : ℕ → Sockets → ℕ
server_fds x s = if server_initialized s then one x s.server_fd else 0

-- A descriptor that a socket call gives is not 0.
abbrev pub is_given : Option ℕ → Bool
is_given none = true
is_given (some fd) = not (fd == 0)

abbrev pub are_given : Option (ℕ × ℕ) → Bool
are_given none = true
are_given (some (sfd, cfd)) = not (sfd == 0) && not (cfd == 0)

unfoldable pub all_given : List Conn → Bool
all_given [] = true
all_given (c ∷ l) = not (c.sfd == 0) && not (c.cfd == 0) && all_given l

-- Every open descriptor was open before the proxy or is the one of its server or of a connection, and
-- every event that is added is one of theirs, each as often.
abbrev pub IsAccounted : List ℕ → Sockets → Type 0
IsAccounted base s =
    (all_given s.v_conn ≡ true)
    × ((x : ℕ) → count x s.fds ≡ count x base + (server_fds x s + conn_fds x s.v_conn))
    × ((x : ℕ) → count x s.events ≡ server_fds x s + conn_events x s.v_conn)

-- What a call adds to the table: the descriptors that it returns, if any.
abbrev pub returned : ℕ → Option ℕ → ℕ
returned x none = 0
returned x (some fd) = one x fd

abbrev pub returned_pair : ℕ → Option (ℕ × ℕ) → ℕ
returned_pair x none = 0
returned_pair x (some (sfd, cfd)) = one x sfd + one x cfd

-- A table with what was returned, against a count of what was open before.
abbrev pub Adds : ℕ → List ℕ × Option ℕ → ℕ → Type 0
Adds x (fds, o) n = count x fds ≡ returned x o + n

new_socket-Adds :
    (x : ℕ) (opened : Option ℕ) (nonblocking : Bool) (fds : List ℕ)
    → Adds x (new_socket opened nonblocking fds) (count x fds)
unfolding new_socket count
new_socket-Adds x none nonblocking fds = omega arith
new_socket-Adds x (some fd) true fds = refl
new_socket-Adds x (some fd) false fds = omega (arith, count-remove x fd (fd ∷ fds))

socket_accept-Adds :
    (x : ℕ) (accepted : Option ℕ) (nonblocking : Bool) (fds : List ℕ)
    → Adds x (socket_accept accepted nonblocking fds) (count x fds)
unfolding socket_accept count
socket_accept-Adds x none nonblocking fds = omega arith
socket_accept-Adds x (some fd) true fds = refl
socket_accept-Adds x (some fd) false fds = omega (arith, count-remove x fd (fd ∷ fds))

listen_on-Adds :
    (x : ℕ) (a : Listening) (p : List ℕ × Option ℕ) (n : ℕ) → Adds x p n → Adds x (listen_on a p) n
unfolding listen_on
listen_on-Adds x a (fds, none) n h = h
listen_on-Adds x a (fds, some fd) n h = ground (arith, count-remove x fd fds)

connect_to-Adds :
    (x : ℕ) (c : Connected) (p : List ℕ × Option ℕ) (n : ℕ) → Adds x p n → Adds x (connect_to c p) n
unfolding connect_to
connect_to-Adds x c (fds, none) n h = h
connect_to-Adds x connected (fds, some fd) n h = h
connect_to-Adds x connect_later (fds, some fd) n h = h
connect_to-Adds x connect_failed (fds, some fd) n h = omega (arith, count-remove x fd fds)

pub server_socket-Adds :
    (x : ℕ) (a : Listening) (fds : List ℕ) → Adds x (server_socket a fds) (count x fds)
unfolding server_socket
server_socket-Adds x a fds =
    listen_on-Adds x a (new_socket a.opened a.nonblocking fds) (count x fds)
      (new_socket-Adds x a.opened a.nonblocking fds)

count-pair_up :
    (x sfd : ℕ) (p : List ℕ × Option ℕ) (n : ℕ)
    → Adds x p (one x sfd + n)
    → count x (pair_up sfd p).0 ≡ returned_pair x (pair_up sfd p).1 + n
unfolding pair_up
count-pair_up x sfd (fds, none) n h = omega (arith, count-remove x sfd fds)
count-pair_up x sfd (fds, some cfd) n h = omega arith

count-prepare_client :
    (x : ℕ) (a : Accepting) (p : List ℕ × Option ℕ) (n : ℕ)
    → Adds x p n
    → count x (prepare_client a p).0 ≡ returned_pair x (prepare_client a p).1 + n
unfolding prepare_client client_socket
count-prepare_client x a (fds, none) n h = h
count-prepare_client x a (fds, some sfd) n h =
    count-pair_up x sfd (client_socket a.opened a.nonblocking a.connecting fds) n (
      connect_to-Adds x a.connecting (new_socket a.opened a.nonblocking fds) (one x sfd + n) (
        new_socket-Adds x a.opened a.nonblocking fds
        ∙ ap (λ k. returned x (new_socket a.opened a.nonblocking fds).1 + k) h))

-- Whatever the system calls answer, PrepareNewConn opens the two sockets that it returns, and none if it
-- fails.
pub count-prepare_new_conn :
    (x : ℕ) (a : Accepting) (fds : List ℕ)
    → count x (prepare_new_conn a fds).0 ≡ returned_pair x (prepare_new_conn a fds).1 + count x fds
unfolding prepare_new_conn
count-prepare_new_conn x a fds =
    count-prepare_client x a (socket_accept a.accepted a.accept_nonblocking fds) (count x fds)
      (socket_accept-Adds x a.accepted a.accept_nonblocking fds)
