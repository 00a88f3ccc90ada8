-- ===== src/Room/Task.antt =====
-- What happens in a room: the jobs, one after the other, and every half second `BS_GameRoom::RoomTask`
-- (GameBS/BS_GameRoom.cpp).
pub mod Valid
pub mod Keys
pub mod Jobs
pub mod Round
pub mod Turns
pub mod Endless
pub mod Roster
pub mod Welcome
use bsgame_server.Base.{ℕ, ◌+◌, ◌-◌, ◌%◌, ◌^◌, List, [], ◌∷◌, Bool, true, false, if◌then◌else◌, ltb}
use bsgame_server.Base.Int.{ℤ}
use bsgame_server.Base.Run.{Run, done, ◌>>=◌}
use bsgame_server.Geometry.{Floats}
use bsgame_server.JobQueue.{JobQueue, execute}
use bsgame_server.SendBuffer.Chunk.{SendBuffer}
use bsgame_server.Room.{monster_hit, span_monsters}
use bsgame_server.Room.Sessions.{del_session}
use bsgame_server.Room.State.{Room, send_all, send_others, push_all}
use bsgame_server.Room.Job
use bsgame_server.Room.Job.{RoomJob}
use bsgame_server.Room.Moves.{move_monsters}
use bsgame_server.Room.Entry.{add_session}

-- `MonsterHit` with its broadcast.
unfoldable pub hit_and_tell : (ℤ → ℤ) → SendBuffer → ℤ → ℤ → ℤ → Room → Room
hit_and_tell results b code fd demage r =
    let (monsters, tell) = monster_hit r.monsters code fd demage in
    let hit : Room = record r { monsters = monsters } in
    if tell then send_all results b hit else hit

module _ (results : ℤ → ℤ) where
  -- `job->Execute()`. No method of the room pushes a job.
  unfoldable pub run_job : RoomJob → Room → Run (Room × List RoomJob)
  run_job (RoomJob.add_session fd) r = add_session results fd r >>= λ r'. done (r', [])
  run_job (RoomJob.del_session fd) r = done (record r { sessions = del_session r.sessions fd }, [])
  run_job (RoomJob.broadcast_push b) r = done (push_all b r, [])
  run_job (RoomJob.broadcast b) r = done (send_all results b r, [])
  run_job (RoomJob.broadcast_another b fd) r = done (send_others results b fd r, [])
  run_job (RoomJob.hit_monster b code fd demage) r =
      done (hit_and_tell results b code fd demage r, [])

  -- `room->Execute()` of `RunTask`.
  unfoldable pub execute_room : Room → JobQueue RoomJob → Run (Room × JobQueue RoomJob)
  execute_room r jobs = execute run_job r jobs

  -- `RoomTask`. `now` is the clock at the start, `later` after the moves.
  unfoldable pub room_task : Floats → (ℤ → ℤ) → ℕ → ℕ → Room → Run Room
  room_task f rotate now later r =
      let due = span_monsters r.monsters >>= λ monsters.
      move_monsters f rotate results (record r { monsters = monsters }) >>= λ r'.
      done (record r' { tick_time = later }) in
      if ltb 500 ((now + 2 ^ 64 - r.tick_time) % 2 ^ 64) then due else done r
