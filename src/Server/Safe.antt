-- ===== src/Server/Safe.antt =====
-- GameBS/main.cpp, `RunTask`: the sessions of the room and those of the service.
pub mod Link
pub mod Reads
pub mod Ties
pub mod Rounds
use bsgame_server.Base.{
  ℕ, ◌≤◌, ◌≡◌, refl, sym, ◌∙◌, List, [], ◌∷◌, Bool, true, false, Option, none, some, lookup,
}
use bsgame_server.Base.Int.{ℤ}
use bsgame_server.Base.Run.{Run, done, assert_crash, ◌>>=◌, >>=-eq-done}
use bsgame_server.Geometry.{Floats}
use bsgame_server.JobQueue.{JobQueue, empty}
use bsgame_server.MapInfo.{Rect}
use bsgame_server.MapInfo.Laws.{IsOrdered}
use bsgame_server.SendBuffer.Store.{Memory}
use bsgame_server.SendBuffer.Alloc
use bsgame_server.Units.{UnitInfo}
use bsgame_server.Session.{Session}
use bsgame_server.Room.Job.{RoomJob}
use bsgame_server.Room.Task.{execute_room, room_task}
use bsgame_server.Room.Task.Turns.{open_room}
use bsgame_server.Service.{Service, Event, no_sessions, accept_client, accept_loop, handle_event}
use bsgame_server.Server.{
  Game, GameEvent, TurnInput, create_sessions, serve_event, serve_events, dispatch_game,
  server_turn, run_server,
}
use bsgame_server.Server.Inputs.{enough, AllTurnInputs}
use bsgame_server.Server.Safe.Link.{Linked}
use bsgame_server.Server.Safe.Reads.{
  Links, done-Links, fault_done, truth_apart, read_client-Links, accept_loop-Linked,
}
use bsgame_server.Server.Safe.Ties.{value_apart, Ties-trans, Ties-Linked}
use bsgame_server.Server.Safe.Rounds.{execute_room-Ties, room_task-Ties}
use bsgame_server.Server.Forever.{run_server_lem}

module _ (name : ℤ → List ℕ) (name_len : ℤ → ℕ) (fuel : ℕ) where
  serve_event-Links :
      (e : GameEvent fuel) (v : Service) (g : Game)
      → Linked v g.room
      → Links (serve_event name name_len fuel e v g)
  unfolding serve_event handle_event accept_client
  serve_event-Links (Event.server true accepts) v g l v' g' e =
      let (v1, p, q) = >>=-eq-done (accept_loop accepts v) _ e in
      done-Links v1 (create_sessions name name_len accepts g)
        (accept_loop-Linked name name_len accepts v v1 g l p) v' g' q
  serve_event-Links (Event.server false accepts) v g l v' g' e = done-Links v g l v' g' e
  serve_event-Links (Event.client fd reads) v g l v' g' e =
      read_client-Links fuel fd reads v g l v' g' e

  serve_events-Links :
      (events : List (GameEvent fuel)) (v : Service) (g : Game)
      → Linked v g.room
      → Links (serve_events name name_len fuel events v g)
  unfolding serve_events
  serve_events-Links [] v g l v' g' e = done-Links v g l v' g' e
  serve_events-Links (x ∷ rest) v g l v' g' e =
      let ((v1, g1), p, q) = >>=-eq-done (serve_event name name_len fuel x v g) _ e in
      serve_events-Links rest v1 g1 (serve_event-Links x v g l v1 g1 p) v' g' q

  dispatch_game-Links :
      (events : Option (List (GameEvent fuel))) (v : Service) (g : Game)
      → Linked v g.room
      → Links (dispatch_game name name_len fuel events v g)
  unfolding dispatch_game
  dispatch_game-Links none v g l v' g' e = absurd (fault_done assert_crash (v', g') e)
  dispatch_game-Links (some events) v g l v' g' e = serve_events-Links events v g l v' g' e

module _ (f : Floats) (name : ℤ → List ℕ) (name_len : ℤ → ℕ) (fuel : ℕ) where
  server_turn-Links :
      (a : TurnInput fuel) (v : Service) (g : Game)
      → Linked v g.room
      → Links (server_turn f name name_len fuel a v g)
  unfolding server_turn
  server_turn-Links a v g l v' g' e =
      let ((v1, g1), p, e1) = >>=-eq-done (dispatch_game name name_len fuel a.events v g) _ e in
      let ((r2, q2), x, e2) = >>=-eq-done (execute_room a.results g1.room g1.jobs) _ e1 in
      let (r3, y, e3) = >>=-eq-done (room_task a.results f a.rotate a.now a.later r2) _ e2 in
      done-Links v1 (record { room = r3; jobs = q2 })
        (Ties-Linked
          (Ties-trans (execute_room-Ties a.results g1.room r2 g1.jobs q2 x)
            (room_task-Ties a.results f a.rotate a.now a.later r2 r3 y))
          (dispatch_game-Links name name_len fuel a.events v g l v1 g1 p))
        v' g' e3

  run_server-Links :
      (inputs : List (TurnInput fuel)) (v : Service) (g : Game)
      → Linked v g.room
      → Links (run_server f name name_len fuel inputs v g)
  unfolding run_server
  run_server-Links [] v g l v' g' e = done-Links v g l v' g' e
  run_server-Links (a ∷ rest) v g l v' g' e =
      let ((v1, g1), p, q) = >>=-eq-done (server_turn f name name_len fuel a v g) _ e in
      run_server-Links rest v1 g1 (server_turn-Links a v g l v1 g1 p) v' g' q

-- Nobody is connected at the start.
start-Linked :
    (sign : ℤ → List ℕ) (spawn : ℕ → ℤ × ℤ) (map : Rect) (now : ℕ) (outside : ℤ → Session)
    (players : ℤ → UnitInfo) (memory : Memory)
    → ((fd : ℤ) → (outside fd).connected ≡ false)
    → Linked no_sessions (open_room sign spawn map now outside players memory)
unfolding open_room lookup
start-Linked sign spawn map now outside players memory none_yet = record {
  inside = λ k s e c. absurd (value_apart s e);
  waiting = λ k c. absurd (truth_apart (sym c ∙ none_yet k));
}

-- The server starts with no session, in the table or outside of it, and everything else is as for the loop that
-- goes on: a map whose sides are not negative, valid memory, fuel of 163841 or more, events that come to an end,
-- descriptors below 1024, and sound requests. Then `RunTask` goes round any number of times without a fault, and
-- after that each session that is connected, in the room, where it is sent to, or outside of it, stands in the
-- table of the service.
pub run_server-Linked :
    (f : Floats) (name : ℤ → List ℕ) (name_len : ℤ → ℕ) (fuel : ℕ) (sign : ℤ → List ℕ)
    (spawn : ℕ → ℤ × ℤ) (map : Rect) (now : ℕ) (outside : ℤ → Session) (players : ℤ → UnitInfo)
    (memory : Memory) (inputs : List (TurnInput fuel))
    → enough ≤ fuel
    → IsOrdered map
    → Alloc.IsValid memory
    → AllTurnInputs fuel inputs
    → ((fd : ℤ) → (outside fd).connected ≡ false)
    → (v : Service) × (g : Game) × (run_server f name name_len fuel inputs no_sessions (record {
      room = open_room sign spawn map now outside players memory;
      jobs = empty RoomJob;
    })
        ≡ done (v, g))
      × Linked v g.room
run_server-Linked f name name_len fuel sign spawn map now outside players memory inputs h o m a
      none_yet =
    let start : Game = record {
      room = open_room sign spawn map now outside players memory;
      jobs = empty RoomJob;
    } in
    let (v, g, e, _, _, _) =
      run_server_lem f name name_len fuel sign spawn map now outside players memory inputs h o m
        a in
    (
      v,
      g,
      e,
      run_server-Links f name name_len fuel inputs no_sessions start
          (start-Linked sign spawn map now outside players memory none_yet) v g e,
    )
