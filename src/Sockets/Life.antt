-- ===== src/Sockets/Life.antt =====
-- The life of a proxy, its descriptors and its events (src/greensql.cpp).
use greensql_fw.Base.{ℕ, Bool, true, false, ◌==◌, [], List, Option, none, some, ◌≡◌, refl, arith}
use greensql_fw.Sockets.{
  Conn, Sockets, Connected, connected, connect_later, connect_failed, Listening, Accepting,
  new_socket, listen_on, server_socket, connect_to, client_socket, socket_accept, pair_up,
  prepare_client, prepare_new_conn, server_initialized, open_server, reopen_server,
  close_server_socket, nth, close_connection, close, wrap_server,
}
use greensql_fw.Sockets.Accounts.{
  count, conn_fds, conn_events, is_given, are_given, all_given, IsAccounted, server_socket-Adds,
  count-prepare_new_conn,
}
use greensql_fw.Sockets.Balance.{
  close_connection-IsAccounted, close_server_socket-IsAccounted, close-IsAccounted,
  serve-IsAccounted, take_conn-IsAccounted,
}
use greensql_fw.Sockets.Writers.{
  enable_event_writer, disable_event_writer, put_writer, enable_event_writer-IsAccounted,
  disable_event_writer-IsAccounted,
}

-- A new proxy in a process that has the descriptors `base` open.
abbrev pub new_proxy : ℕ → List ℕ → Sockets
new_proxy proxy_id base = record {
  proxy_id = proxy_id;
  fds = base;
  events = [];
  server_fd = 0;
  is_init = false;
  v_conn = [];
  statuses = [];
}

-- The states of a proxy. A descriptor that socket() or accept() gives is not 0, since 0 is open.
pub data Life (proxy_id : ℕ) (base : List ℕ) : Sockets → Type 0 where
  created : Life proxy_id base (new_proxy proxy_id base)
  initialized :
      (a : Listening) (s : Sockets)
      → Life proxy_id base s
      → server_initialized s ≡ false
      → is_given a.opened ≡ true
      → Life proxy_id base (open_server a s).0
  reinitialized :
      (a : Listening) (s : Sockets)
      → Life proxy_id base s
      → is_given a.opened ≡ true
      → Life proxy_id base (reopen_server a s).0
  server_fired :
      (b_running : Bool) (a : Accepting) (s : Sockets)
      → Life proxy_id base s
      → is_given a.accepted ≡ true
      → is_given a.opened ≡ true
      → Life proxy_id base (wrap_server b_running a s)
  writer_enabled :
      (n : ℕ) (proxy : Bool) (c : Conn) (s : Sockets)
      → Life proxy_id base s
      → nth n s.v_conn ≡ some c
      → Life proxy_id base (put_writer n (enable_event_writer proxy c s.events) s)
  writer_disabled :
      (n : ℕ) (proxy : Bool) (c : Conn) (s : Sockets)
      → Life proxy_id base s
      → nth n s.v_conn ≡ some c
      → Life proxy_id base (put_writer n (disable_event_writer proxy c s.events) s)
  connection_closed :
      (n : ℕ) (s : Sockets) → Life proxy_id base s → Life proxy_id base (close_connection n s)
  server_closed : (s : Sockets) → Life proxy_id base s → Life proxy_id base (close_server_socket s)
  closed : (s : Sockets) → Life proxy_id base s → Life proxy_id base (close s)

-- What is returned was given.
abbrev GivenIn : List ℕ × Option ℕ → Type 0
GivenIn p = is_given p.1 ≡ true

new_socket-GivenIn :
    (opened : Option ℕ) (nonblocking : Bool) (fds : List ℕ)
    → is_given opened ≡ true
    → GivenIn (new_socket opened nonblocking fds)
unfolding new_socket
new_socket-GivenIn none nonblocking fds h = refl
new_socket-GivenIn (some fd) true fds h = h
new_socket-GivenIn (some fd) false fds h = refl

listen_on-GivenIn : (a : Listening) (p : List ℕ × Option ℕ) → GivenIn p → GivenIn (listen_on a p)
unfolding listen_on
listen_on-GivenIn a (fds, none) h = refl
listen_on-GivenIn a (fds, some fd) h = ground (arith, h)

socket_accept-GivenIn :
    (accepted : Option ℕ) (nonblocking : Bool) (fds : List ℕ)
    → is_given accepted ≡ true
    → GivenIn (socket_accept accepted nonblocking fds)
unfolding socket_accept
socket_accept-GivenIn none nonblocking fds h = refl
socket_accept-GivenIn (some fd) true fds h = h
socket_accept-GivenIn (some fd) false fds h = refl

connect_to-GivenIn : (c : Connected) (p : List ℕ × Option ℕ) → GivenIn p → GivenIn (connect_to c p)
unfolding connect_to
connect_to-GivenIn c (fds, none) h = refl
connect_to-GivenIn connected (fds, some fd) h = h
connect_to-GivenIn connect_later (fds, some fd) h = h
connect_to-GivenIn connect_failed (fds, some fd) h = refl

pair_up-given :
    (sfd : ℕ) (p : List ℕ × Option ℕ)
    → (sfd == 0) ≡ false
    → GivenIn p
    → are_given (pair_up sfd p).1 ≡ true
unfolding pair_up
pair_up-given sfd (fds, none) h k = refl
pair_up-given sfd (fds, some cfd) h k = ground (arith, h, k)

prepare_client-given :
    (a : Accepting) (p : List ℕ × Option ℕ)
    → GivenIn p
    → is_given a.opened ≡ true
    → are_given (prepare_client a p).1 ≡ true
unfolding prepare_client client_socket
prepare_client-given a (fds, none) h k = refl
prepare_client-given a (fds, some sfd) h k =
    pair_up-given sfd (client_socket a.opened a.nonblocking a.connecting fds) (ground (arith, h)) (
      connect_to-GivenIn a.connecting (new_socket a.opened a.nonblocking fds)
        (new_socket-GivenIn a.opened a.nonblocking fds k))

open_server-IsAccounted :
    (base : List ℕ) (a : Listening) (s : Sockets)
    → server_initialized s ≡ false
    → is_given a.opened ≡ true
    → IsAccounted base s
    → IsAccounted base (open_server a s).0
unfolding open_server server_socket
open_server-IsAccounted base a s idle h accounted =
    serve-IsAccounted base (server_socket a s.fds) s idle
      (listen_on-GivenIn a (new_socket a.opened a.nonblocking s.fds)
        (new_socket-GivenIn a.opened a.nonblocking s.fds h))
      (λ x. server_socket-Adds x a s.fds) accounted

wrap_server-IsAccounted :
    (base : List ℕ) (b_running : Bool) (a : Accepting) (s : Sockets)
    → is_given a.accepted ≡ true
    → is_given a.opened ≡ true
    → IsAccounted base s
    → IsAccounted base (wrap_server b_running a s)
unfolding wrap_server prepare_new_conn
wrap_server-IsAccounted base false a s h k accounted = (close-IsAccounted base s accounted).0
wrap_server-IsAccounted base true a s h k accounted =
    take_conn-IsAccounted base (prepare_new_conn a s.fds) a.peer s
      (λ x. count-prepare_new_conn x a s.fds)
      (prepare_client-given a (socket_accept a.accepted a.accept_nonblocking s.fds)
        (socket_accept-GivenIn a.accepted a.accept_nonblocking s.fds h) k)
      accounted

-- Whatever the system calls answer and in whatever order a proxy is initialized, accepts and loses
-- connections, waits for writes, is reinitialized and is closed: each descriptor is open as often as
-- it was in the process before, and once more for each socket of the proxy, its server's and those of its
-- connections. No descriptor leaks on any path of an error, and events are added for these sockets alone.
pub Life-IsAccounted :
    (proxy_id : ℕ) (base : List ℕ) (s : Sockets) → Life proxy_id base s → IsAccounted base s
unfolding server_initialized conn_fds conn_events all_given count reopen_server
Life-IsAccounted proxy_id base _ created = (refl, λ x. omega arith, λ x. refl)
Life-IsAccounted proxy_id base _ (initialized a s life idle given) =
    open_server-IsAccounted base a s idle given (Life-IsAccounted proxy_id base s life)
Life-IsAccounted proxy_id base _ (reinitialized a s life given) =
    let (accounted, idle) =
      close_server_socket-IsAccounted base s (Life-IsAccounted proxy_id base s life) in
    open_server-IsAccounted base a (close_server_socket s) idle given accounted
Life-IsAccounted proxy_id base _ (server_fired b_running a s life h k) =
    wrap_server-IsAccounted base b_running a s h k (Life-IsAccounted proxy_id base s life)
Life-IsAccounted proxy_id base _ (writer_enabled n proxy c s life h) =
    enable_event_writer-IsAccounted base n proxy c s h (Life-IsAccounted proxy_id base s life)
Life-IsAccounted proxy_id base _ (writer_disabled n proxy c s life h) =
    disable_event_writer-IsAccounted base n proxy c s h (Life-IsAccounted proxy_id base s life)
Life-IsAccounted proxy_id base _ (connection_closed n s life) =
    close_connection-IsAccounted base n s (Life-IsAccounted proxy_id base s life)
Life-IsAccounted proxy_id base _ (server_closed s life) =
    (close_server_socket-IsAccounted base s (Life-IsAccounted proxy_id base s life)).0
Life-IsAccounted proxy_id base _ (closed s life) =
    (close-IsAccounted base s (Life-IsAccounted proxy_id base s life)).0

-- GreenSQL::Close leaves no connection, no event, and of the descriptors exactly those that were open
-- before the proxy, whatever its life was.
close-releases :
    (proxy_id : ℕ) (base : List ℕ) (s : Sockets)
    → Life proxy_id base s
    → (x : ℕ)
    → ((close s).v_conn ≡ [])
      × (count x (close s).events ≡ 0)
      × (count x (close s).fds ≡ count x base)
unfolding conn_fds conn_events
close-releases proxy_id base s life x =
    let (kept, empty, idle) = close-IsAccounted base s (Life-IsAccounted proxy_id base s life) in
    let (given, fds, events) = kept in
    (
      empty,
      omega (arith, rw (idle, empty) at (events x)),
      omega (arith, rw (idle, empty) at (fds x)),
    )
