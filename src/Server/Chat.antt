-- ===== src/Server/Chat.antt =====
-- GameBS/main.cpp: a chat message, from `epoll_wait` to every client of the room.
use bsgame_server.Base.{
  lookup-insert, ℕ, ◌+◌, ◌≤◌, ◌≡◌, refl, sym, ap, ◌∙◌, subst, List, [], ◌∷◌, ◌++◌, true, none, some,
  IntMap, Option, lookup, insert, length, length-append, take-append, arith,
}
use bsgame_server.Base.Int.{ℤ, eqb_ℤ_self}
use bsgame_server.Base.Words.{bytes8, bytes16, bytes32}
use bsgame_server.Base.Run.{Run, done, ◌>>=◌}
use bsgame_server.Framing.{header_size}
use bsgame_server.Framing.Packets.{handle_all}
use bsgame_server.Geometry.{Floats}
use bsgame_server.JobQueue.{
  JobQueue, push, count_up, enqueue, run_batch, execute, take_all, count_down, push_all,
}
use bsgame_server.SendBuffer.Alloc
use bsgame_server.SendBuffer.Chunk.{SendBuffer}
use bsgame_server.SendBuffer.Store.{content}
use bsgame_server.Packets.{int_field}
use bsgame_server.Session.{Session}
use bsgame_server.Handler.{World}
use bsgame_server.Handler.Relay.{handle_packet-chat}
use bsgame_server.Handler.Requests.{Request, request_packet, request_body, IsSound}
use bsgame_server.Room.Job.{RoomJob}
use bsgame_server.Room.Sessions.{broadcast, broadcast_flushes, broadcast_push_all}
use bsgame_server.Room.State.{Room, send_all}
use bsgame_server.Room.Task.{run_job, execute_room, room_task}
use bsgame_server.Service.{Service, Reading, Event, receive, read_loop, read_session, read_client}
use bsgame_server.Service.Table.{get_session-some}
use bsgame_server.Server.{
  Game, TurnInput, world_of, put_world, handle_game, recv_game, release_game, server_turn,
}
use bsgame_server.Server.Inputs.{enough, packets}
use bsgame_server.Server.Clients.{IsClient, receive_handles}
use bsgame_server.Server.Leave.{server_turn-client}

-- The room runs one broadcast.
broadcast_job :
    (results : ℤ → ℤ) (b : SendBuffer) (r : Room) (q : JobQueue RoomJob)
    → q.q ≡ RoomJob.broadcast b ∷ []
    → (q' : JobQueue RoomJob) × (execute_room results r q ≡ done (send_all results b r, q'))
      × (q'.q ≡ [])
unfolding execute_room execute take_all count_down run_batch run_job push_all
broadcast_job results b r q e = (
  count_down (take_all q).1 (length q.q),
  ap
        (λ js. run_batch (run_job results) js r (take_all q).1 >>= λ (r', q').
          done (r', count_down q' (length js)))
        e
      ∙ ap (λ n. done (send_all results b r, count_down (take_all q).1 n)) (sym (ap length e)),
  refl,
)

-- What the server sends of a message.
abbrev pub chat_bytes : ℤ → ℕ → List ℕ → List ℕ
chat_bytes fd chat_type text =
    (bytes16 4 ++ bytes16 (9 + length text + header_size))
    ++ (int_field fd ++ (bytes8 chat_type ++ (bytes32 (length text) ++ text)))

-- `OnRecv` has found one chat message.
handle_chat_packet :
    (fd : ℤ) (chat_type : ℕ) (text junk : List ℕ) (g : Game)
    → IsSound (Request.chat chat_type text)
    → Alloc.IsValid g.room.memory
    → (w : World) × (b : SendBuffer) × (handle_all
          (handle_game fd)
          (packets (Request.chat chat_type text ∷ []))
          junk
          g
        ≡ done (put_world fd w g))
      × (w.room ≡ some (push g.jobs (RoomJob.broadcast b)))
      × (content w.memory b ≡ chat_bytes fd chat_type text)
unfolding handle_all handle_game world_of
handle_chat_packet fd chat_type text junk g s m =
    let (w, h, p) =
      handle_packet-chat fd chat_type (length text)
        (header_size + length (request_body (Request.chat chat_type text)))
        (length (request_packet (Request.chat chat_type text))) (text ++ junk) (world_of fd g)
        g.jobs s.0 s.1 (omega (arith, length-append text junk)) m refl in
    (
      w,
      p.packet,
      rw h refl,
      p.jobs,
      p.bytes_lem
          ∙ ap
              (λ l.
                (bytes16 4 ++ bytes16 (9 + length text + header_size))
                ++ (int_field fd ++ (bytes8 chat_type ++ (bytes32 (length text) ++ l))))
              (take-append text junk (length text) refl),
    )

-- `ReadClient` where one message has come, after which `errno` is EAGAIN.
read_one :
    (fuel : ℕ) (bytes : List ℕ) (s s' : Session) (v : Service) (g g' : Game)
    → lookup s.socket_fd v.session_map ≡ some (some s)
    → receive (recv_game fuel) release_game (record { incoming = bytes; would_block = true }) s g
      ≡ done (true, s', g')
    → read_client
        (recv_game fuel)
        release_game
        s.socket_fd
        (record { incoming = bytes; would_block = true } ∷ [])
        v
        g
      ≡ done (record v { session_map = insert s'.socket_fd (some s') v.session_map }, g')
unfolding read_client read_session read_loop
read_one fuel bytes s s' v g g' e r = rw (get_session-some s.socket_fd (some s) v e, r) refl

-- The server has a client of which nothing is left over, a valid memory and no job. In this turn `epoll_wait`
-- reports only a chat message of this client, of at most 65522 bytes, which has come whole, and `errno` is EAGAIN
-- after it; the rounds of `OnRecv` are bounded by 163841 or more. Then the client stays in the table with nothing
-- left over; the jobs of the room are run before `RoomTask`, and none is left; and every client of the room that is
-- connected, the sender included, is sent what waited for it and, last, the message with the sender's descriptor.
pub chat_reaches_all :
    (f : Floats) (name : ℤ → List ℕ) (name_len : ℤ → ℕ) (fuel : ℕ) (a : TurnInput fuel)
    (chat_type : ℕ) (text : List ℕ) (s : Session) (v : Service) (g : Game)
    → enough ≤ fuel
    → IsSound (Request.chat chat_type text)
    → a.events
      ≡ some (
          Event.client s.socket_fd (
            record {
              incoming = request_packet (Request.chat chat_type text) ++ [];
              would_block = true;
            }
            ∷ [])
          ∷ [])
    → lookup s.socket_fd v.session_map ≡ some (some s)
    → IsClient s.socket_fd s
    → Alloc.IsValid g.room.memory
    → g.jobs.q ≡ []
    → (s' : Session) × (v' : Service) × (r : Room) × (q : JobQueue RoomJob) × (b : SendBuffer)
      × (out : IntMap (List SendBuffer)) × (server_turn f name name_len fuel a v g ≡ (
          room_task a.results f a.rotate a.now a.later r >>= λ r'.
          done (v', record { room = r'; jobs = q })))
      × (lookup s.socket_fd v'.session_map ≡ some (some s'))
      × IsClient s.socket_fd s'
      × (q.q ≡ [])
      × (r.sent ≡ g.room.sent ++ out)
      × (content r.memory b ≡ chat_bytes s.socket_fd chat_type text)
      × ((k : ℤ) (x : Session)
          → lookup k g.room.sessions ≡ some x
          → x.connected ≡ true
          → lookup k out ≡ some (x.send_buffers ++ (b ∷ [])))
unfolding put_world push count_up enqueue send_all broadcast_push_all
chat_reaches_all f name name_len fuel a chat_type text s v g h sound e there c valid none_left =
    let fd = s.socket_fd in
    let request = Request.chat chat_type text in
    let x : Reading = record { incoming = request_packet request ++ []; would_block = true } in
    let (s', junk, received, same, c') =
      receive_handles fuel h x request [] s g (sound, tt) refl
        (omega (arith, sound.1, length-append (request_packet request) [])) c in
    let (w, b, handled, pushed, bytes) = handle_chat_packet fd chat_type text junk g sound valid in
    let g' = put_world fd w g in
    let v' : Service = record v { session_map = insert s'.socket_fd (some s') v.session_map } in
    let (q, ran, nothing) =
      broadcast_job a.results b g'.room (push g.jobs (RoomJob.broadcast b))
        (ap (λ l. l ++ (RoomJob.broadcast b ∷ [])) none_left) in
    (
      s',
      v',
      send_all a.results b g'.room,
      q,
      b,
      (broadcast a.results b g.room.sessions).1,
      server_turn-client f name name_len fuel a fd (x ∷ []) v v' g g' (send_all a.results b g'.room)
          q e
          (read_one fuel x.incoming s s' v g g' there
            (received ∙ ap (λ (y : Run Game). y >>= λ t. done (true, s', t)) handled))
          (ap
              (λ (o : Option (JobQueue RoomJob)).
                execute_room a.results g'.room
                  (elim o as (λ _. JobQueue RoomJob) [ none ↦ g.jobs | some p ↦ p ]))
              pushed
            ∙ ran),
      subst (λ k. lookup k (insert s'.socket_fd (some s') v.session_map) ≡ some (some s')) same
          (lookup-insert s'.socket_fd s'.socket_fd (some s') v.session_map
            ∙ rw (eqb_ℤ_self s'.socket_fd) refl),
      subst (λ k. IsClient k s') same c',
      nothing,
      refl,
      bytes,
      λ k y l t. (broadcast_flushes a.results [] b g.room.sessions k y l t).0,
    )
