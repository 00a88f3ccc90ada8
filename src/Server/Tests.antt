-- ===== src/Server/Tests.antt =====
-- A client that comes, enters, writes and goes; and a room with clients, of whom one writes or goes.
use bsgame_server.Base.{
  ℕ, ◌≡◌, refl, List, [], ◌∷◌, ◌++◌, true, false, none, some, IntMap, lookup, arith,
}
use bsgame_server.Base.Int.{ℤ, pos, negsuc}
use bsgame_server.Base.Run.{done, ◌>>=◌}
use bsgame_server.Framing.Packets.{join}
use bsgame_server.JobQueue.{JobQueue, empty}
use bsgame_server.SendBuffer.Alloc.{no_chunks, no_chunks-IsValid}
use bsgame_server.SendBuffer.Chunk.{SendBuffer}
use bsgame_server.SendBuffer.Store.{content}
use bsgame_server.Session.{Session, open_session}
use bsgame_server.Handler.Requests.{Request, request_packet}
use bsgame_server.Room.Job.{RoomJob}
use bsgame_server.Room.State.{Room}
use bsgame_server.Room.Task.{room_task}
use bsgame_server.Room.Task.Turns.{open_room, open_room-IsRoom}
use bsgame_server.Room.Task.Valid.{IsRoom}
use bsgame_server.Room.Task.Endless.{max_files, IsOpen-of_seats}
use bsgame_server.Room.Tests.{sums, field, field-IsOrdered, hero, minus_sign, corner, clients, room}
use bsgame_server.Service.{Service, Accepted, Reading, Event, no_sessions, read_client}
use bsgame_server.Service.Game.{close_bytes}
use bsgame_server.Service.Table.{AllEntries, ends, is_dry}
use bsgame_server.Server.{
  Game, GameEvent, TurnInput, recv_game, release_game, server_turn, run_server,
}
use bsgame_server.Server.Keep.{IsRunning}
use bsgame_server.Server.Drain.{Ends, never_blocks, drained_client_released}
use bsgame_server.Server.Inputs.{enough, packets, IsSoundEvent, AllTurnInputs}
use bsgame_server.Server.Clients.{IsClient, open_session-IsClient}
use bsgame_server.Server.Forever.{run_server_lem}
use bsgame_server.Server.Safe.Link.{Linked}
use bsgame_server.Server.Safe.{run_server-Linked}
use bsgame_server.Server.Leave.{Parting, without, client_leaves}
use bsgame_server.Server.Chat.{chat_bytes, chat_reaches_all}

abbrev nobody : ℤ → List ℕ
nobody fd = []

abbrev short : ℤ → ℕ
short fd = 0

abbrev answers : List (GameEvent enough) → TurnInput enough
answers events = record {
  events = some events;
  results = λ fd. pos 8;
  rotate = λ k. pos 90;
  now = 1501;
  later = 1502;
}

abbrev accepted : ℤ → Accepted
accepted fd = record { client_fd = fd; non_block = true; registered = true; peer = 7 }

abbrev requests : List Request
requests = Request.load 2 (65 ∷ 66 ∷ []) ∷ Request.chat 1 (72 ∷ 105 ∷ []) ∷ []

abbrev arrives : GameEvent enough
arrives = Event.server true (accepted (pos 5) ∷ accepted (negsuc 0) ∷ [])

abbrev closing : Reading
closing = record { incoming = []; would_block = false }

abbrev speaks : GameEvent enough
speaks =
    Event.client (pos 5)
      (record { incoming = join (packets requests); would_block = false } ∷ closing ∷ [])

abbrev day : List (TurnInput enough)
day = answers (arrives ∷ []) ∷ answers (speaks ∷ []) ∷ answers [] ∷ []

arrives-IsSoundEvent : IsSoundEvent enough arrives
unfolding ends
arrives-IsSoundEvent = (refl, (omega arith, (omega arith, tt)))

speaks-IsSoundEvent : IsSoundEvent enough speaks
unfolding is_dry
speaks-IsSoundEvent = (
  refl,
  (
    (requests, ((omega arith, omega arith), ((omega arith, omega arith), tt)), refl, omega arith),
    (([], tt, refl, omega arith), tt),
  ),
)

day-AllTurnInputs : AllTurnInputs enough day
day-AllTurnInputs = (
  (arrives ∷ [], refl, (arrives-IsSoundEvent, tt)),
  ((speaks ∷ [], refl, (speaks-IsSoundEvent, tt)), (([], refl, tt), tt)),
)

run_server_lem_example :
    (v : Service) × (g : Game) × (run_server sums nobody short enough day no_sessions
        (record { room = room; jobs = empty RoomJob })
      ≡ done (v, g))
    × AllEntries IsClient v.session_map
    × IsRoom max_files g.room
    × (g.jobs.q ≡ [])
unfolding open_room
run_server_lem_example =
    run_server_lem sums nobody short enough minus_sign corner field 1000 room.outside hero no_chunks
      day (omega arith) field-IsOrdered no_chunks-IsValid day-AllTurnInputs

-- A session that nobody has connected yet.
abbrev closed : ℤ → Session
closed fd = record (open_session fd) { connected = false }

run_server-Linked_example :
    (v : Service) × (g : Game) × (run_server sums nobody short enough day no_sessions (record {
      room = open_room minus_sign corner field 1000 closed hero no_chunks;
      jobs = empty RoomJob;
    })
      ≡ done (v, g))
    × Linked v g.room
run_server-Linked_example =
    run_server-Linked sums nobody short enough minus_sign corner field 1000 closed hero no_chunks
      day (omega arith) field-IsOrdered no_chunks-IsValid day-AllTurnInputs (λ fd. refl)

-- Two clients are in the room; the service knows one of them.
abbrev speaker : Session
speaker = open_session (pos 5)

abbrev service : Service
service = record no_sessions { session_map = (pos 5, some speaker) ∷ []; session_count = pos 1 }

abbrev game : Game
game = record { room = record room { sessions = clients }; jobs = empty RoomJob }

speaker_there : lookup speaker.socket_fd service.session_map ≡ some (some speaker)
unfolding lookup open_session
speaker_there = refl

abbrev goodbye : TurnInput enough
goodbye = answers (Event.client speaker.socket_fd (closing ∷ []) ∷ [])

client_leaves_example :
    (r : Room) × (q : JobQueue RoomJob) × (b : SendBuffer) × (out : IntMap (List SendBuffer))
    × (server_turn sums nobody short enough goodbye service game ≡ (
        room_task goodbye.results sums goodbye.rotate goodbye.now goodbye.later r >>= λ r'.
        done (without speaker service, record { room = r'; jobs = q })))
    × (lookup speaker.socket_fd (without speaker service).session_map ≡ none)
    × (lookup speaker.socket_fd r.sessions ≡ none)
    × (q.q ≡ [])
    × (r.sent ≡ game.room.sent ++ out)
    × Parting speaker.socket_fd b game.room.sessions out
    × (content r.memory b ≡ close_bytes speaker.socket_fd)
unfolding empty open_room
client_leaves_example =
    client_leaves sums nobody short enough goodbye false speaker service game refl speaker_there
      no_chunks-IsValid refl

abbrev hello : List ℕ
hello = 72 ∷ 105 ∷ []

abbrev greeting : TurnInput enough
greeting = answers (
    Event.client speaker.socket_fd
      (record { incoming = request_packet (Request.chat 1 hello) ++ []; would_block = true } ∷ [])
    ∷ [])

speaker-IsClient : IsClient speaker.socket_fd speaker
unfolding open_session
speaker-IsClient = open_session-IsClient (pos 5) (5, refl, omega arith)

chat_reaches_all_example :
    (s' : Session) × (v' : Service) × (r : Room) × (q : JobQueue RoomJob) × (b : SendBuffer)
    × (out : IntMap (List SendBuffer)) × (server_turn sums nobody short enough greeting service game
        ≡ (room_task greeting.results sums greeting.rotate greeting.now greeting.later r >>= λ r'.
            done (v', record { room = r'; jobs = q })))
    × (lookup speaker.socket_fd v'.session_map ≡ some (some s'))
    × IsClient speaker.socket_fd s'
    × (q.q ≡ [])
    × (r.sent ≡ game.room.sent ++ out)
    × (content r.memory b ≡ chat_bytes speaker.socket_fd 1 hello)
    × ((k : ℤ) (x : Session)
        → lookup k game.room.sessions ≡ some x
        → x.connected ≡ true
        → lookup k out ≡ some (x.send_buffers ++ (b ∷ [])))
unfolding empty open_room
chat_reaches_all_example =
    chat_reaches_all sums nobody short enough greeting 1 hello speaker service game (omega arith)
      (omega arith, omega arith) refl speaker_there speaker-IsClient no_chunks-IsValid refl

abbrev last_words : List Reading
last_words = record { incoming = join (packets requests); would_block = false } ∷ closing ∷ []

last_words_dry : is_dry last_words ≡ true
unfolding is_dry
last_words_dry = refl

last_words_go_on : never_blocks last_words ≡ true
unfolding never_blocks
last_words_go_on = refl

abbrev new_game : Game
new_game = record { room = room; jobs = empty RoomJob }

new_game-IsRunning : IsRunning new_game
unfolding empty open_room
new_game-IsRunning = record {
  open_room =
      IsOpen-of_seats
        (open_room-IsRoom minus_sign corner field 1000 room.outside hero no_chunks field-IsOrdered
          no_chunks-IsValid)
        tt;
  fit = tt;
}

drained_client_released_example :
    Ends speaker.socket_fd service
      (read_client (recv_game enough) release_game speaker.socket_fd last_words service new_game)
drained_client_released_example =
    drained_client_released enough speaker.socket_fd speaker last_words service new_game
      (omega arith) speaker_there speaker-IsClient last_words_dry last_words_go_on
      (
        (
          requests,
          ((omega arith, omega arith), ((omega arith, omega arith), tt)),
          refl,
          omega arith,
        ),
        (([], tt, refl, omega arith), tt),
      )
      new_game-IsRunning
