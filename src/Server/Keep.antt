-- ===== src/Server/Keep.antt =====
-- GameBS/BS_GameSession.cpp, GameBS/BS_GameServerService.cpp: what a packet and the end of a session leave of
-- the game.
use bsgame_server.Base.{
  ℕ, ◌≡◌, refl, sym, subst, List, [], ◌∷◌, ◌++◌, length, some, Bool, true, false, if◌then◌else◌,
  arith,
}
use bsgame_server.Base.Int.{ℤ, eqb_ℤ}
use bsgame_server.Base.Run.{done}
use bsgame_server.Framing.Packets.{join, handle_all}
use bsgame_server.JobQueue.{push}
use bsgame_server.Units.{UnitInfo}
use bsgame_server.Session.{Session}
use bsgame_server.SendBuffer.Store.{Memory}
use bsgame_server.SendBuffer.Alloc
use bsgame_server.Packets.Layout.{make_close_player_lem}
use bsgame_server.Handler.{World, with_room, push_job}
use bsgame_server.Handler.Requests.{
  Request, request_packet, Served, push-AllFit, handle_packet-Served,
}
use bsgame_server.Room.Job.{broadcast_another, del_session}
use bsgame_server.Room.Seats.{IsBelow, Seated, keys-each}
use bsgame_server.Room.State.{Room}
use bsgame_server.Room.Moves.Keep.{length-each}
use bsgame_server.Room.Task.Endless.{max_files, IsOpen, AllFit}
use bsgame_server.Service.{Accepted}
use bsgame_server.Service.Game.{release_session_message}
use bsgame_server.Server.{
  Game, world_of, put_world, handle_game, shared, share_session, release_game, create_session,
  create_sessions,
}
use bsgame_server.Server.Inputs.{AllSound, packets}

-- The room is open, and its jobs are fit.
pub record IsRunning (g : Game) : Type 0 where
  pub open_room : IsOpen g.room
  pub fit : AllFit g.jobs.q

IsRunning-Served : {g : Game} (fd : ℤ) → IsRunning g → Served (world_of fd g)
unfolding world_of
IsRunning-Served {g} fd v = (v.open_room.room.memory, (g.jobs, refl, v.fit))

-- The sessions and the monsters stay; the memory is still valid.
IsOpen-with :
    (r : Room) (players : ℤ → UnitInfo) (outside : ℤ → Session) (m : Memory)
    → IsOpen r
    → Alloc.IsValid m
    → IsOpen (record r { players = players; outside = outside; memory = m })
IsOpen-with r players outside m v w = record {
  room = record {
    monsters = v.room.monsters;
    few = v.room.few;
    crowd = v.room.crowd;
    memory = w;
    ordered = v.room.ordered;
  };
  seats = v.seats;
}

put_world-IsRunning :
    (fd : ℤ) (w : World) (g : Game) → IsRunning g → Served w → IsRunning (put_world fd w g)
unfolding put_world
put_world-IsRunning fd w g v (m, (q, e, f)) = rw e (record {
  open_room =
      IsOpen-with g.room (λ k. if eqb_ℤ k fd then w.player else g.room.players k) g.room.outside
        w.memory v.open_room m;
  fit = f;
})

-- `HandlePacket` for each packet of sound requests.
pub handle_all-IsRunning :
    (fd : ℤ) (rs : List Request) (rest : List ℕ) (g : Game)
    → AllSound rs
    → IsBelow max_files fd
    → IsRunning g
    → (g' : Game) × (handle_all (handle_game fd) (packets rs) rest g ≡ done g') × IsRunning g'
unfolding handle_all handle_game
handle_all-IsRunning fd [] rest g s b v = (g, refl, v)
handle_all-IsRunning fd (r ∷ rs) rest g s b v =
    let (w, e, served) =
      handle_packet-Served fd r (join (packets rs) ++ rest) (length (request_packet r))
        (world_of fd g) s.0 b (IsRunning-Served fd v) in
    let (g', e', v') =
      handle_all-IsRunning fd rs rest (put_world fd w g) s.1 b
        (put_world-IsRunning fd w g v served) in
    (g', rw e e', v')

share_session-IsOpen : (s : Session) (r : Room) → IsOpen r → IsOpen (share_session s r)
unfolding share_session
share_session-IsOpen s r v =
    let g : ℤ → Session → Session = λ k t. if eqb_ℤ k s.socket_fd then shared s t else t in
    record {
      room = record {
        monsters = v.room.monsters;
        few = v.room.few;
        crowd = omega (arith, v.room.crowd, length-each g r.sessions);
        memory = v.room.memory;
        ordered = v.room.ordered;
      };
      seats = subst (Seated max_files) (sym (keys-each g r.sessions)) v.seats;
    }

release_message-Served :
    (s : Session) (w : World)
    → Served w
    → (w' : World) × (release_session_message s w ≡ done w') × Served w'
unfolding release_session_message with_room push_job
release_message-Served s w (m, (q, e, f)) =
    let fd = s.socket_fd in
    let (b, m', made, bytes, valid) = make_close_player_lem w.memory fd m in
    let q' = push (push q (broadcast_another b fd)) (del_session fd) in
    (
      record w { memory = m'; room = some q' },
      rw (e, made) refl,
      (
        valid,
        (
          q',
          refl,
          push-AllFit (push q (broadcast_another b fd)) (del_session fd)
              (push-AllFit q (broadcast_another b fd) f (tt, tt)) (tt, tt),
        ),
      ),
    )

pub release_game-IsRunning :
    (s : Session) (g : Game)
    → IsRunning g
    → (g' : Game) × (release_game s g ≡ done g') × IsRunning g'
unfolding release_game
release_game-IsRunning s g v =
    let left : Game = record g { room = share_session s g.room } in
    let u : IsRunning left = record {
      open_room = share_session-IsOpen s g.room v.open_room;
      fit = v.fit;
    } in
    let (w, e, served) =
      release_message-Served s (world_of s.socket_fd left) (IsRunning-Served s.socket_fd u) in
    (put_world s.socket_fd w left, rw e refl, put_world-IsRunning s.socket_fd w left u served)

module _ (name : ℤ → List ℕ) (name_len : ℤ → ℕ) where
  create_session-IsRunning :
      (fd : ℤ) (g : Game) → IsRunning g → IsRunning (create_session name name_len fd g)
  unfolding create_session
  create_session-IsRunning fd g v = record {
    open_room = IsOpen-with g.room _ _ g.room.memory v.open_room v.open_room.room.memory;
    fit = v.fit;
  }

  pub create_sessions-IsRunning :
      (accepts : List Accepted) (g : Game)
      → IsRunning g
      → IsRunning (create_sessions name name_len accepts g)
  unfolding create_sessions
  create_sessions-IsRunning [] g v = v
  create_sessions-IsRunning (a ∷ rest) g v =
      let made =
        create_sessions-IsRunning rest (create_session name name_len a.client_fd g)
          (create_session-IsRunning a.client_fd g v) in
      let skipped = create_sessions-IsRunning rest g v in
      either _ (either a.non_block (either a.registered made v) skipped) v
    where
      either : {x y : Game} (c : Bool) → IsRunning x → IsRunning y → IsRunning (if c then x else y)
      either true p q = p
      either false p q = q
