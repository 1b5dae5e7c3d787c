-- ===== src/Sockets.antt =====
-- The descriptors and the events of a proxy (src/greensql.cpp, close of src/connection.cpp, and
-- wrap_Server of src/proxymap.cpp). What the system calls answer is an argument.
pub mod Accounts
pub mod Balance
pub mod Writers
pub mod Life
mod Tests
use greensql_fw.Base.{
  ℕ, ◌-◌, Bool, true, false, not, ◌&&◌, ◌==◌, if◌then◌else◌, Bytes, [], ◌∷◌, ◌++◌, List, Option,
  none, some,
}

-- A connection: its two sockets, and whether the events for writes are added. Those for reads are, from
-- Server_cb on.
pub record Conn : Type 0 where
  pub sfd : ℕ
  pub cfd : ℕ
  pub proxy_writer : Bool
  pub backend_writer : Bool
  pub db_user_ip : Bytes

-- `fds` are the open descriptors of the process, `events` the descriptor of each event that is added,
-- `server_fd` and `is_init` those of serverEvent, and `statuses` the updates of the table of proxies.
pub record Sockets : Type 0 where
  pub proxy_id : ℕ
  pub fds : List ℕ
  pub events : List ℕ
  pub server_fd : ℕ
  pub is_init : Bool
  pub v_conn : List Conn
  pub statuses : List (ℕ × ℕ)

pub remove : ℕ → List ℕ → List ℕ
remove x [] = []
remove x (y ∷ l) = let rest = remove x l in if y == x then l else y ∷ rest

-- socket_close.
abbrev pub socket_close : ℕ → List ℕ → List ℕ
socket_close fd fds = remove fd fds

-- socket() with its answer, and whether both calls of fcntl succeed. `none` stands for -1.
pub new_socket : Option ℕ → Bool → List ℕ → List ℕ × Option ℕ
new_socket none nonblocking fds = (fds, none)
new_socket (some fd) nonblocking fds =
    if nonblocking then (fd ∷ fds, some fd) else (socket_close fd (fd ∷ fds), none)

-- The answers for a socket that listens.
pub record Listening : Type 0 where
  pub opened : Option ℕ
  pub nonblocking : Bool
  pub bound : Bool
  pub listens : Bool

-- server_socket from the new socket on.
pub listen_on : Listening → List ℕ × Option ℕ → List ℕ × Option ℕ
listen_on a (fds, none) = (fds, none)
listen_on a (fds, some sfd) =
    if not a.bound
    then (socket_close sfd fds, none)
    else if not a.listens
    then (socket_close sfd fds, none)
    else (fds, some sfd)

pub server_socket : Listening → List ℕ → List ℕ × Option ℕ
server_socket a fds = listen_on a (new_socket a.opened a.nonblocking fds)

-- connect(): done, one of the errors EAGAIN, EWOULDBLOCK and EINPROGRESS, or another.
pub data Connected : Type 0 where
  connected connect_later connect_failed : Connected

-- client_socket from the new socket on.
pub connect_to : Connected → List ℕ × Option ℕ → List ℕ × Option ℕ
connect_to connecting (fds, none) = (fds, none)
connect_to connected (fds, some sfd) = (fds, some sfd)
connect_to connect_later (fds, some sfd) = (fds, some sfd)
connect_to connect_failed (fds, some sfd) = (socket_close sfd fds, none)

pub client_socket : Option ℕ → Bool → Connected → List ℕ → List ℕ × Option ℕ
client_socket opened nonblocking connecting fds =
    connect_to connecting (new_socket opened nonblocking fds)

-- The answer of accept(), with whether both calls of fcntl succeed. On an error -1 is closed, which
-- changes nothing.
pub socket_accept : Option ℕ → Bool → List ℕ → List ℕ × Option ℕ
socket_accept none nonblocking fds = (fds, none)
socket_accept (some sfd) nonblocking fds =
    if nonblocking then (sfd ∷ fds, some sfd) else (socket_close sfd (sfd ∷ fds), none)

-- The answers for a new connection.
pub record Accepting : Type 0 where
  pub accepted : Option ℕ
  pub accept_nonblocking : Bool
  pub opened : Option ℕ
  pub nonblocking : Bool
  pub connecting : Connected
  pub peer : Bytes

-- PrepareNewConn behind client_socket, and behind socket_accept.
pub pair_up : ℕ → List ℕ × Option ℕ → List ℕ × Option (ℕ × ℕ)
pair_up sfd (fds, none) = (socket_close sfd fds, none)
pair_up sfd (fds, some cfd) = (fds, some (sfd, cfd))

pub prepare_client : Accepting → List ℕ × Option ℕ → List ℕ × Option (ℕ × ℕ)
prepare_client a (fds, none) = (fds, none)
prepare_client a (fds, some sfd) =
    pair_up sfd (client_socket a.opened a.nonblocking a.connecting fds)

pub prepare_new_conn : Accepting → List ℕ → List ℕ × Option (ℕ × ℕ)
prepare_new_conn a fds = prepare_client a (socket_accept a.accepted a.accept_nonblocking fds)

-- Server_cb, with the answer of getpeername as text.
pub server_cb : ℕ × ℕ → Bytes → Sockets → Sockets
server_cb (sfd, cfd) peer s = record s {
  events = cfd ∷ sfd ∷ s.events;
  v_conn =
      record {
        sfd = sfd;
        cfd = cfd;
        proxy_writer = false;
        backend_writer = false;
        db_user_ip = peer;
      }
      ∷ s.v_conn;
}

-- ServerInitialized.
pub server_initialized : Sockets → Bool
server_initialized s = not (s.server_fd == 0) && s.is_init

-- ProxyInit behind server_socket.
pub serve : List ℕ × Option ℕ → Sockets → Sockets × Bool
serve (fds, none) s = (record s { fds = fds }, false)
serve (fds, some sfd) s =
    (record s { fds = fds; server_fd = sfd; is_init = true; events = sfd ∷ s.events }, true)

-- ProxyInit from server_socket on.
pub open_server : Listening → Sockets → Sockets × Bool
open_server a s = serve (server_socket a s.fds) s

-- CloseServer, and the same of ProxyReInit.
pub close_server_socket : Sockets → Sockets
close_server_socket s =
    if server_initialized s
    then record s {
      events = remove s.server_fd s.events;
      fds = socket_close s.server_fd s.fds;
      server_fd = 0;
    }
    else s

-- ProxyReInit.
pub reopen_server : Listening → Sockets → Sockets × Bool
reopen_server a s = open_server a (close_server_socket s)

-- event_del of an event whose descriptor is not 0.
pub delete_event : ℕ → List ℕ → List ℕ
delete_event fd events = if fd == 0 then events else remove fd events

-- The same of an event for writes, which may not be added.
pub delete_writer : Bool → ℕ → List ℕ → List ℕ
delete_writer inserted fd events = if inserted then delete_event fd events else events

-- Connection::close, but for `erase(location)`.
pub close_events : Conn → List ℕ → List ℕ
close_events c events =
    delete_writer c.backend_writer c.cfd
      (delete_event c.cfd (delete_writer c.proxy_writer c.sfd (delete_event c.sfd events)))

pub close_conn : Conn → Sockets → Sockets
close_conn c s = record s {
  fds = socket_close c.cfd (socket_close c.sfd s.fds);
  events = close_events c s.events;
}

-- The connection at a place of the list, and the list without it.
pub nth : ℕ → List Conn → Option Conn
nth n [] = none
nth n (c ∷ l) = let rest = nth (n - 1) l in if n == 0 then some c else rest

pub erase_nth : ℕ → List Conn → List Conn
erase_nth n [] = []
erase_nth n (c ∷ l) = let rest = erase_nth (n - 1) l in if n == 0 then l else c ∷ rest

-- CloseConnection, at the place `n`.
pub close_found : Option Conn → ℕ → Sockets → Sockets
close_found none n s = s
close_found (some c) n s = record (close_conn c s) { v_conn = erase_nth n s.v_conn }

pub close_connection : ℕ → Sockets → Sockets
close_connection n s = close_found (nth n s.v_conn) n s

-- The loop of Close.
pub close_conns : List Conn → Sockets → Sockets
close_conns [] s = record s { v_conn = [] }
close_conns (c ∷ l) s = close_conns l (record (close_conn c s) { v_conn = l })

-- GreenSQL::Close.
pub close : Sockets → Sockets
close s =
    close_server_socket
      (close_conns s.v_conn (record s { statuses = s.statuses ++ ((s.proxy_id, 0) ∷ []) }))

-- wrap_Server behind PrepareNewConn.
pub take_conn : List ℕ × Option (ℕ × ℕ) → Bytes → Sockets → Sockets
take_conn (fds, none) peer s = record s { fds = fds }
take_conn (fds, some pair) peer s = server_cb pair peer (record s { fds = fds })

-- wrap_Server, for a proxy that is in memory.
pub wrap_server : (b_running : Bool) → Accepting → Sockets → Sockets
wrap_server b_running a s =
    if not b_running then close s else take_conn (prepare_new_conn a s.fds) a.peer s
