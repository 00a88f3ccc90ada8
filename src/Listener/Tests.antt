-- ===== src/Listener/Tests.antt =====
-- A start at which every call succeeds but the last.
use bsgame_server.Base.{◌≡◌, [], ◌∷◌, false}
use bsgame_server.Base.Int.{pos, negsuc}
use bsgame_server.Listener.{Answers, start_listener, start_listener_lem}

abbrev no_epoll : Answers
no_epoll = record {
  socket = pos 4;
  set_flags = pos 0;
  reuse_address = pos 0;
  reuse_port = pos 0;
  linger = pos 0;
  bound = pos 0;
  listening = pos 0;
  epoll_ctl = negsuc 0;
}

start_listener_lem_example :
    ((start_listener no_epoll).0 ≡ false)
    × ((start_listener no_epoll).1.closed ≡ pos 4 ∷ pos 4 ∷ [])
start_listener_lem_example = start_listener_lem no_epoll
