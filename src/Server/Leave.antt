-- ===== src/Server/Leave.antt =====
-- GameBS/main.cpp: a client whose connection ends, from `epoll_wait` to the room and the other clients.
use bsgame_server.Base.{
  contains-insert, lookup-erase, ℕ, ◌≡◌, refl, ap, ◌∙◌, List, [], ◌∷◌, ◌++◌, Bool, true, false,
  none, some, if◌then◌else◌, IntMap, lookup, insert, erase, take-nil,
}
use mathlib.Core.Option
use bsgame_server.Base.Int.{ℤ, pos, pos_part, eqb_ℤ, eqb_ℤ_self, sub_int32}
use bsgame_server.Base.Run.{done, ◌>>=◌}
use bsgame_server.Geometry.{Floats}
use bsgame_server.RecvBuffer.{free_size}
use bsgame_server.JobQueue.{JobQueue, push, count_up, enqueue}
use bsgame_server.SendBuffer.Alloc
use bsgame_server.SendBuffer.Chunk.{SendBuffer}
use bsgame_server.SendBuffer.Store.{content}
use bsgame_server.Packets.Layout.{make_close_player_lem}
use bsgame_server.Session.{Session, receive_message, disconnect}
use bsgame_server.Handler.{World, with_room, push_job}
use bsgame_server.Room.Job.{RoomJob, broadcast_another, del_session}
use bsgame_server.Room.Sessions.{each, lookup-each, broadcast_another_lem}
use bsgame_server.Room.Sessions
use bsgame_server.Room.Seats.{eqb_ℤ_swap}
use bsgame_server.Room.State.{Room}
use bsgame_server.Room.Task.{execute_room, room_task}
use bsgame_server.Service.{
  Service, Reading, Event, handle_event, release_session, receive, read_loop, read_session,
  read_client,
}
use bsgame_server.Service.Table.{get_session-some}
use bsgame_server.Service.Game.{release_session_message, close_bytes, close_jobs}
use bsgame_server.Server.{
  Game, TurnInput, world_of, put_world, recv_game, release_game, shared, share_session, serve_event,
  serve_events, dispatch_game, server_turn,
}

-- A turn with one event, that of a client.
module _ (f : Floats) (name : ℤ → List ℕ) (name_len : ℤ → ℕ) (fuel : ℕ) where
  pub server_turn-client :
      (a : TurnInput fuel) (fd : ℤ) (reads : List Reading) (v v' : Service) (g g' : Game) (r : Room)
      (q : JobQueue RoomJob)
      → a.events ≡ some (Event.client fd reads ∷ [])
      → read_client (recv_game fuel) release_game fd reads v g ≡ done (v', g')
      → execute_room a.results g'.room g'.jobs ≡ done (r, q)
      → server_turn f name name_len fuel a v g ≡ (
          room_task a.results f a.rotate a.now a.later r >>= λ r'.
          done (v', record { room = r'; jobs = q }))
  unfolding server_turn dispatch_game serve_events serve_event handle_event
  server_turn-client a fd reads v v' g g' r q e c x = rw (e, c, x) refl

-- What the others are told when a session leaves.
abbrev pub Parting : ℤ → SendBuffer → IntMap Session → IntMap (List SendBuffer) → Type 0
Parting fd b m out =
    (k : ℤ) (s : Session)
    → eqb_ℤ fd k ≡ false
    → lookup k m ≡ some s
    → s.connected ≡ true
    → lookup k out ≡ some (s.send_buffers ++ (b ∷ []))

broadcast_another-Parting :
    (results : ℤ → ℤ) (x : Session) (b : SendBuffer) (r : Room)
    → Parting x.socket_fd b r.sessions
        (Sessions.broadcast_another results b x.socket_fd (share_session x r).sessions).1
unfolding share_session
broadcast_another-Parting results x b r k s d e c =
    let fd = x.socket_fd in
    let m = (share_session x r).sessions in
    let same : lookup k m ≡ some s =
      lookup-each (λ j t. if eqb_ℤ j fd then shared x t else t) k r.sessions
      ∙ ap (Option.map (λ t. if eqb_ℤ k fd then shared x t else t)) e
      ∙ ap (λ c. some (if c then shared x s else s)) (eqb_ℤ_swap fd k d) in
    (broadcast_another_lem results b fd m k s same c).1 ∙ rw d refl

-- The table without a client, whose descriptor is closed.
abbrev pub without : Session → Service → Service
without s v = record v {
  session_map = erase s.socket_fd (insert s.socket_fd (some (disconnect s)) v.session_map);
  session_count = sub_int32 v.session_count (pos 1);
  closed = v.closed ++ (s.socket_fd ∷ []);
}

-- `ReadClient` where `recv` finds that the peer has gone.
read_gone :
    (fuel : ℕ) (block : Bool) (s : Session) (v : Service) (g g' : Game)
    → lookup s.socket_fd v.session_map ≡ some (some s)
    → release_game (disconnect s) g ≡ done g'
    → read_client
        (recv_game fuel)
        release_game
        s.socket_fd
        (record { incoming = []; would_block = block } ∷ [])
        v
        g
      ≡ done (without s v, g')
unfolding read_client read_session read_loop receive receive_message release_session disconnect
read_gone fuel block s v g g' e r =
    rw
      (
        get_session-some s.socket_fd (some s) v e,
        take-nil {A = ℕ} (pos_part (free_size s.recv_buffer)),
        contains-insert s.socket_fd (some (disconnect s)) v.session_map,
        r,
      )
      refl

-- The server has a client, a valid memory and no job. In this turn `epoll_wait` reports only that its peer has gone.
-- Then the service has no session under its descriptor and closes it; the jobs of the room are run before
-- `RoomTask`, after which the room has no such session and no job; and every other client of the room that is
-- connected is sent what waited for it and, last, the packet that names the descriptor.
pub client_leaves :
    (f : Floats) (name : ℤ → List ℕ) (name_len : ℤ → ℕ) (fuel : ℕ) (a : TurnInput fuel)
    (block : Bool) (s : Session) (v : Service) (g : Game)
    → a.events
      ≡ some (Event.client s.socket_fd (record { incoming = []; would_block = block } ∷ []) ∷ [])
    → lookup s.socket_fd v.session_map ≡ some (some s)
    → Alloc.IsValid g.room.memory
    → g.jobs.q ≡ []
    → (r : Room) × (q : JobQueue RoomJob) × (b : SendBuffer) × (out : IntMap (List SendBuffer))
      × (server_turn f name name_len fuel a v g ≡ (
          room_task a.results f a.rotate a.now a.later r >>= λ r'.
          done (without s v, record { room = r'; jobs = q })))
      × (lookup s.socket_fd (without s v).session_map ≡ none)
      × (lookup s.socket_fd r.sessions ≡ none)
      × (q.q ≡ [])
      × (r.sent ≡ g.room.sent ++ out)
      × Parting s.socket_fd b g.room.sessions out
      × (content r.memory b ≡ close_bytes s.socket_fd)
unfolding release_game release_session_message with_room push_job push count_up enqueue world_of
    put_world share_session disconnect
client_leaves f name name_len fuel a block s v g e there valid none_left =
    let fd = s.socket_fd in
    let (b, m, made, bytes, _) = make_close_player_lem g.room.memory fd valid in
    let left : Game = record g { room = share_session (disconnect s) g.room } in
    let q0 = push (push g.jobs (broadcast_another b fd)) (del_session fd) in
    let w : World = record { player = g.room.players fd; memory = m; room = some q0 } in
    let g' = put_world fd w left in
    let released : release_game (disconnect s) g ≡ done g' = rw made refl in
    let (r, q, ran, gone, nothing, sent, same) =
      close_jobs a.results fd b g'.room q0
        (ap (λ l. (l ++ (broadcast_another b fd ∷ [])) ++ (del_session fd ∷ [])) none_left) in
    (
      r,
      q,
      b,
      (Sessions.broadcast_another a.results b fd g'.room.sessions).1,
      server_turn-client f name name_len fuel a fd _ v (without s v) g g' r q e
          (read_gone fuel block s v g g' there released) ran,
      lookup-erase fd fd (insert fd (some (disconnect s)) v.session_map) ∙ rw (eqb_ℤ_self fd) refl,
      gone,
      nothing,
      sent,
      broadcast_another-Parting a.results (disconnect s) b g.room,
      ap (λ n. content n b) same ∙ bytes,
    )
