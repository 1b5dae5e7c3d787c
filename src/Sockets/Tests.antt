-- ===== src/Sockets/Tests.antt =====
-- A proxy with two connections, one of them without a server (src/greensql.cpp).
use greensql_fw.Base.{ℕ, true, [], ◌∷◌, List, some, codes, refl}
use greensql_fw.Sockets.{
  Sockets, Listening, Accepting, connect_later, connect_failed, server_initialized, open_server,
  wrap_server,
}
use greensql_fw.Sockets.Accounts.{IsAccounted}
use greensql_fw.Sockets.Life.{Life, created, initialized, server_fired, new_proxy, Life-IsAccounted}

-- Standard input, output and errors.
abbrev base : List ℕ
base = 0 ∷ 1 ∷ 2 ∷ []

abbrev listening : Listening
listening = record { opened = some 5; nonblocking = true; bound = true; listens = true }

abbrev accepting : Accepting
accepting = record {
  accepted = some 6;
  accept_nonblocking = true;
  opened = some 7;
  nonblocking = true;
  connecting = connect_later;
  peer = codes "10.0.0.9";
}

-- The server does not answer.
abbrev refused : Accepting
refused = record accepting { accepted = some 8; opened = some 9; connecting = connect_failed }

abbrev serving : Sockets
serving = (open_server listening (new_proxy 1 base)).0

abbrev busy : Sockets
busy = wrap_server true refused (wrap_server true accepting serving)

busy-Life : Life 1 base busy
unfolding server_initialized
busy-Life =
    server_fired true refused (wrap_server true accepting serving)
      (server_fired true accepting serving
        (initialized listening (new_proxy 1 base) created refl refl) refl refl)
      refl refl

Life-IsAccounted_example : IsAccounted base busy
Life-IsAccounted_example = Life-IsAccounted 1 base busy busy-Life
