-- ===== src/Service/Game.antt =====
-- GameBS/BS_GameServerService.cpp, `ReleaseSessionMesssage`: a session that is released leaves room 0.
use bsgame_server.Base.{
  lookup, erase, lookup-erase, ◌∙◌, length, sym, ap, ℕ, ◌+◌, ◌≡◌, refl, List, [], ◌∷◌, ◌++◌, none,
}
use bsgame_server.Base.Int.{ℤ, eqb_ℤ_self}
use bsgame_server.Base.Run.{Run, done, ◌>>=◌}
use bsgame_server.JobQueue.{JobQueue}
use bsgame_server.Framing.{header_size}
use bsgame_server.Base.Words.{bytes16}
use bsgame_server.Session.{Session}
use bsgame_server.Room.Job.{RoomJob, broadcast_another, del_session}
use bsgame_server.Packets.{make_close_player, int_field}
use bsgame_server.SendBuffer.Chunk.{SendBuffer}
use bsgame_server.Room.State.{Room, send_others}
use bsgame_server.Room.Sessions
use bsgame_server.Room.Task.{execute_room, run_job}
use bsgame_server.JobQueue.{run_batch, execute, take_all, count_down, push_all}
use bsgame_server.Handler.{World, with_room, push_job}

-- `ReleaseSessionMesssage`: the announcement for the others, then the removal.
unfoldable pub release_session_message : Session → World → Run World
unfolding with_room push_job
release_session_message s w =
    with_room w (λ m. make_close_player m s.socket_fd) (λ b. broadcast_another b s.socket_fd)
    >>= λ w'. done (push_job w' (del_session s.socket_fd))

-- The packet that announces the end of a player.
abbrev pub close_bytes : ℤ → List ℕ
close_bytes fd = (bytes16 6 ++ bytes16 (4 + header_size)) ++ int_field fd

-- The room runs the two jobs.
pub close_jobs :
    (results : ℤ → ℤ) (fd : ℤ) (b : SendBuffer) (r : Room) (q : JobQueue RoomJob)
    → q.q ≡ broadcast_another b fd ∷ del_session fd ∷ []
    → (r' : Room) × (q'' : JobQueue RoomJob) × (execute_room results r q ≡ done (r', q''))
      × (lookup fd r'.sessions ≡ none)
      × (q''.q ≡ [])
      × (r'.sent ≡ r.sent ++ (Sessions.broadcast_another results b fd r.sessions).1)
      × (r'.memory ≡ r.memory)
unfolding execute_room execute take_all count_down run_batch run_job push_all send_others
    Sessions.del_session
close_jobs results fd b r q e =
    let m = (Sessions.broadcast_another results b fd r.sessions).0 in
    (
      record (send_others results b fd r) { sessions = erase fd m },
      count_down (take_all q).1 (length q.q),
      ap
            (λ js. run_batch (run_job results) js r (take_all q).1 >>= λ (r', q').
              done (r', count_down q' (length js)))
            e
          ∙ ap
              (λ n. done (
                record (send_others results b fd r) { sessions = erase fd m },
                count_down (take_all q).1 n,
              ))
              (sym (ap length e)),
      lookup-erase fd fd m ∙ rw (eqb_ℤ_self fd) refl,
      refl,
      refl,
      refl,
    )
