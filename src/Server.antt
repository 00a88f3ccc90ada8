-- ===== src/Server.antt =====
-- GameBS/main.cpp, `RunTask`, by one thread: `Dispatch` of the service, and `Execute` and `RoomTask` of room 0,
-- over the sessions, the players, the jobs and the memory that they share.
pub mod Inputs
pub mod Keep
pub mod Clients
pub mod Forever
pub mod Drain
pub mod Safe
pub mod Leave
pub mod Chat
mod Tests
use bsgame_server.Base.{ℕ, List, [], ◌∷◌, Bool, true, false, Option, none, some, if◌then◌else◌}
use bsgame_server.Base.Int.{ℤ, pos, ltb_ℤ, eqb_ℤ}
use bsgame_server.Base.Run.{Run, done, fault, assert_crash, ◌>>=◌}
use bsgame_server.Framing
use bsgame_server.Geometry.{Floats}
use bsgame_server.JobQueue.{JobQueue}
use bsgame_server.Units.{UnitInfo}
use bsgame_server.Units
use bsgame_server.Session.{Session, open_session}
use bsgame_server.Handler.{World, handle_packet}
use bsgame_server.Room.Job.{RoomJob}
use bsgame_server.Room.Sessions.{each}
use bsgame_server.Room.State.{Room}
use bsgame_server.Room.Task.{execute_room, room_task}
use bsgame_server.Service.{Service, Accepted, Event, handle_event}
use bsgame_server.Service.Game.{release_session_message}

-- Room 0, and the jobs that wait for it. The room and the service hold the same sessions: the service reads from
-- them, and the room sends.
pub record Game : Type 0 where
  pub room : Room
  pub jobs : JobQueue RoomJob

-- What `HandlePacket` of the session `fd` acts on, and what it leaves.
unfoldable pub world_of : ℤ → Game → World
world_of fd g = record { player = g.room.players fd; memory = g.room.memory; room = some g.jobs }

unfoldable pub put_world : ℤ → World → Game → Game
put_world fd w g = record {
  room = record g.room {
    players = λ k. if eqb_ℤ k fd then w.player else g.room.players k;
    memory = w.memory;
  };
  jobs = elim w.room [ none ↦ g.jobs | some q ↦ q ];
}

unfoldable pub handle_game : ℤ → List ℕ → ℕ → Game → Run Game
unfolding world_of put_world
handle_game fd buffer len g =
    handle_packet fd buffer len (world_of fd g) >>= λ w. done (put_world fd w g)

-- `OnRecv` of the session with a descriptor; `fuel` bounds the rounds of its loop.
unfoldable pub recv_game : ℕ → ℤ → List ℕ → ℕ → Game → Run (Game × ℕ)
unfolding handle_game
recv_game fuel fd buffer len g = Framing.on_recv (handle_game fd) fuel buffer len g

-- The room and the service hold the same object for a session. The room's record of it takes over whether the
-- session is connected and what it has received; its buffers are kept unless it is disconnected.
abbrev pub shared : Session → Session → Session
shared s t = record t {
  connected = s.connected;
  recv_buffer = s.recv_buffer;
  send_buffers = if s.connected then t.send_buffers else [];
}

-- The records of the room, after `ReciveMessage` has left `s`.
unfoldable pub share_session : Session → Room → Room
unfolding each
share_session s r = record r {
  sessions = each (λ k t. if eqb_ℤ k s.socket_fd then shared s t else t) r.sessions;
  outside = λ k. if eqb_ℤ k s.socket_fd then shared s (r.outside k) else r.outside k;
}

-- `ReleaseSessionMesssage` of a session as `ReciveMessage` has left it.
unfoldable pub release_game : Session → Game → Run Game
unfolding share_session world_of put_world
release_game s g =
    let left : Game = record g { room = share_session s g.room } in
    release_session_message s (world_of s.socket_fd left) >>= λ w.
    done (put_world s.socket_fd w left)

-- `CreateSession` with the constructor of `BS_GameSession`, which makes the player. `name` and `name_len` are
-- what the memory of a new player holds.
module _ (name : ℤ → List ℕ) (name_len : ℤ → ℕ) where
  -- `CreatePlayerInfo`.
  unfoldable pub create_player : ℤ → UnitInfo
  create_player fd = Units.create (name fd) (name_len fd) fd

  unfoldable pub create_session : ℤ → Game → Game
  unfolding create_player
  create_session fd g = record g {
    room = record g.room {
      outside = λ k. if eqb_ℤ k fd then open_session k else g.room.outside k;
      players = λ k. if eqb_ℤ k fd then create_player k else g.room.players k;
    };
  }

  -- The sessions that `AcceptClient` makes.
  unfoldable pub create_sessions : List Accepted → Game → Game
  unfolding create_session
  create_sessions [] g = g
  create_sessions (a ∷ rest) g =
      let made = create_sessions rest (create_session a.client_fd g) in
      let skipped = create_sessions rest g in
      if ltb_ℤ (pos 0) a.client_fd
      then (if a.non_block then (if a.registered then made else g) else skipped)
      else g

-- What `epoll_wait` reports.
abbrev pub GameEvent : ℕ → Type 0
GameEvent fuel = Event (recv_game fuel) release_game

module _ (name : ℤ → List ℕ) (name_len : ℤ → ℕ) (fuel : ℕ) where
  -- One round of the loop of `Dispatch`.
  unfoldable pub serve_event : GameEvent fuel → Service → Game → Run (Service × Game)
  unfolding create_sessions
  serve_event (Event.server true accepts) v g =
      handle_event (recv_game fuel) release_game (Event.server true accepts) v
        (create_sessions name name_len accepts g)
  serve_event e v g = handle_event (recv_game fuel) release_game e v g

  unfoldable pub serve_events : List (GameEvent fuel) → Service → Game → Run (Service × Game)
  unfolding serve_event
  serve_events [] v g = done (v, g)
  serve_events (e ∷ rest) v g = serve_event e v g >>= λ (v', g'). serve_events rest v' g'

  -- `Dispatch`; `none` is a negative result of `epoll_wait`.
  unfoldable pub dispatch_game :
      Option (List (GameEvent fuel)) → Service → Game → Run (Service × Game)
  unfolding serve_events
  dispatch_game none v g = fault assert_crash
  dispatch_game (some events) v g = serve_events events v g

-- What the world answers during one time round the loop: the events, what `sendmsg` returns, what the generator
-- gives to the monsters, and the clock at both times.
pub record TurnInput (fuel : ℕ) : Type 0 where
  pub events : Option (List (GameEvent fuel))
  pub results : ℤ → ℤ
  pub rotate : ℤ → ℤ
  pub now : ℕ
  pub later : ℕ

module _ (f : Floats) (name : ℤ → List ℕ) (name_len : ℤ → ℕ) (fuel : ℕ) where
  -- `Dispatch(); room->Execute(); room->RoomTask();`.
  unfoldable pub server_turn : TurnInput fuel → Service → Game → Run (Service × Game)
  unfolding dispatch_game
  server_turn a v g = dispatch_game name name_len fuel a.events v g >>= λ (v', g').
      execute_room a.results g'.room g'.jobs >>= λ (r, q).
      room_task a.results f a.rotate a.now a.later r >>= λ r'.
      done (v', record { room = r'; jobs = q })

  -- The loop of `RunTask`, as often as there are answers.
  unfoldable pub run_server : List (TurnInput fuel) → Service → Game → Run (Service × Game)
  unfolding server_turn
  run_server [] v g = done (v, g)
  run_server (a ∷ rest) v g = server_turn a v g >>= λ (v', g'). run_server rest v' g'
