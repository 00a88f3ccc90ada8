-- ===== src/Server/Forever.antt =====
-- GameBS/main.cpp: the loop of `RunTask`, time after time.
use bsgame_server.Base.{ℕ, ◌≤◌, ◌≡◌, refl, sym, subst, List, [], ◌∷◌, true, false, lookup, arith}
use bsgame_server.Base.Int.{ℤ, pos, pos_part, ◌≤ℤ◌, parts_disjoint}
use bsgame_server.Base.Run.{done}
use bsgame_server.RecvBuffer.Laws.{nonneg_eq}
use bsgame_server.Geometry.{Floats}
use bsgame_server.JobQueue.{empty}
use bsgame_server.MapInfo.{Rect}
use bsgame_server.MapInfo.Laws.{IsOrdered}
use bsgame_server.SendBuffer.Store.{Memory}
use bsgame_server.SendBuffer.Alloc
use bsgame_server.Units.{UnitInfo}
use bsgame_server.Session.{Session}
use bsgame_server.Room.Job.{RoomJob}
use bsgame_server.Room.Task.Turns.{open_room, open_room-IsRoom}
use bsgame_server.Room.Task.Valid.{IsRoom}
use bsgame_server.Room.Task.Endless.{
  max_files, IsOpen-of_seats, AllFit, execute_room-IsOpen, room_task-IsOpen,
}
use bsgame_server.Service.{Service, Accepted, Event, no_sessions, accept_client, handle_event}
use bsgame_server.Service.Table.{AllEntries, AllOpen, accept_loop-AllEntries}
use bsgame_server.Service.Loop.{Fine, read_client-Fine}
use bsgame_server.Server.{
  Game, GameEvent, TurnInput, recv_game, release_game, create_sessions, serve_event, serve_events,
  dispatch_game, server_turn, run_server,
}
use bsgame_server.Server.Inputs.{
  enough, IsRequests, AllFiles, IsSoundEvent, AllSoundEvents, AllTurnInputs,
}
use bsgame_server.Server.Keep.{IsRunning, release_game-IsRunning, create_sessions-IsRunning}
use bsgame_server.Server.Clients.{IsClient, open_session-IsClient, receive-IsClient}

AllFiles-AllOpen : (accepts : List Accepted) → AllFiles accepts → AllOpen IsClient accepts
AllFiles-AllOpen [] a = tt
AllFiles-AllOpen (a ∷ rest) (h, more) = (
  λ e.
      let p : pos 0 ≤ℤ a.client_fd = ground (arith, e) in
      open_session-IsClient a.client_fd
        (pos_part a.client_fd, nonneg_eq p, omega (arith, h, p, parts_disjoint a.client_fd)),
  AllFiles-AllOpen rest more,
)

module _ (name : ℤ → List ℕ) (name_len : ℤ → ℕ) (fuel : ℕ) (h : enough ≤ fuel) where
  serve_event-Fine :
      (e : GameEvent fuel) (v : Service) (g : Game)
      → IsSoundEvent fuel e
      → AllEntries IsClient v.session_map
      → IsRunning g
      → Fine IsClient IsRunning (serve_event name name_len fuel e v g)
  unfolding serve_event handle_event accept_client
  serve_event-Fine (Event.server true accepts) v g (e, files) t r =
      let (v', s, t') =
        accept_loop-AllEntries IsClient accepts v e (AllFiles-AllOpen accepts files) t in
      (
        v',
        create_sessions name name_len accepts g,
        rw s refl,
        t',
        create_sessions-IsRunning name name_len accepts g r,
      )
  serve_event-Fine (Event.server false accepts) v g s t r = (v, g, refl, t, r)
  serve_event-Fine (Event.client fd reads) v g (dry, sound) t r =
      read_client-Fine IsClient IsRequests IsRunning (recv_game fuel) release_game
        (λ k s c. c.entry.own) (receive-IsClient fuel h) release_game-IsRunning fd reads v g dry
        sound t r

  dispatch_game-Fine :
      (events : List (GameEvent fuel)) (v : Service) (g : Game)
      → AllSoundEvents fuel events
      → AllEntries IsClient v.session_map
      → IsRunning g
      → Fine IsClient IsRunning (serve_events name name_len fuel events v g)
  unfolding serve_events
  dispatch_game-Fine [] v g s t r = (v, g, refl, t, r)
  dispatch_game-Fine (e ∷ rest) v g s t r =
      let (v1, g1, e1, t1, r1) = serve_event-Fine e v g s.0 t r in
      let (v2, g2, e2, t2, r2) = dispatch_game-Fine rest v1 g1 s.1 t1 r1 in
      (v2, g2, rw e1 e2, t2, r2)

module _ (f : Floats) (name : ℤ → List ℕ) (name_len : ℤ → ℕ) (fuel : ℕ) (h : enough ≤ fuel) where
  run_server-Fine :
      (answers : List (TurnInput fuel)) (v : Service) (g : Game)
      → AllTurnInputs fuel answers
      → AllEntries IsClient v.session_map
      → IsRunning g
      → g.jobs.q ≡ []
      → (v' : Service) × (g' : Game) × (run_server f name name_len fuel answers v g ≡ done (v', g'))
        × AllEntries IsClient v'.session_map
        × IsRunning g'
        × (g'.jobs.q ≡ [])
  unfolding run_server server_turn dispatch_game
  run_server-Fine [] v g s t r q = (v, g, refl, t, r, q)
  run_server-Fine (a ∷ rest) v g ((events, e, sound), more) t r q =
      let (v1, g1, e1, t1, r1) = dispatch_game-Fine name name_len fuel h events v g sound t r in
      let (r2, q2, e2, o2, z2) =
        execute_room-IsOpen a.results g1.room g1.jobs r1.fit r1.open_room in
      let (r3, e3, o3) = room_task-IsOpen a.results f a.rotate a.now a.later r2 o2 in
      let (v4, g4, e4, t4, r4, z4) =
        run_server-Fine rest v1 (record { room = r3; jobs = q2 }) more t1
          (record { open_room = o3; fit = subst AllFit (sym z2) tt }) z2 in
      (v4, g4, rw (e, e1, e2, e3) e4, t4, r4, z4)

-- The server starts with no session, an empty queue and room 0, on a map whose sides are not negative and with
-- valid memory. Each time round the loop `epoll_wait` reports events, whose calls of `accept` and `recv` come to an
-- end; the descriptors are below 1024; and each `recv` gives nothing, or whole packets with sound requests that
-- fit the receive buffer. The rounds of `OnRecv` are bounded by 163841 or more. Then the loop of `RunTask`, run by
-- one thread, never faults, however often it goes round and whatever `sendmsg`, the generator, the clock and the
-- memory of a new player give: the clients of the table are connected, each under its own descriptor, with an empty
-- receive buffer; the room is valid, with its ten monsters and at most 1024 sessions; and no job is left.
pub run_server_lem :
    (f : Floats) (name : ℤ → List ℕ) (name_len : ℤ → ℕ) (fuel : ℕ) (sign : ℤ → List ℕ)
    (spawn : ℕ → ℤ × ℤ) (map : Rect) (now : ℕ) (outside : ℤ → Session) (players : ℤ → UnitInfo)
    (memory : Memory) (answers : List (TurnInput fuel))
    → enough ≤ fuel
    → IsOrdered map
    → Alloc.IsValid memory
    → AllTurnInputs fuel answers
    → (v : Service) × (g : Game) × (run_server f name name_len fuel answers no_sessions (record {
      room = open_room sign spawn map now outside players memory;
      jobs = empty RoomJob;
    })
        ≡ done (v, g))
      × AllEntries IsClient v.session_map
      × IsRoom max_files g.room
      × (g.jobs.q ≡ [])
unfolding empty open_room lookup
run_server_lem f name name_len fuel sign spawn map now outside players memory answers h o m a =
    let start = open_room sign spawn map now outside players memory in
    let v0 = open_room-IsRoom sign spawn map now outside players memory o m in
    let (v, g, e, t, r, q) =
      run_server-Fine f name name_len fuel h answers no_sessions
        (record { room = start; jobs = empty RoomJob }) a (λ k s p. cc)
        (record { open_room = IsOpen-of_seats v0 tt; fit = tt }) refl in
    (v, g, e, t, r.open_room.room, q)
