-- ===== src/Room/Task/Endless.antt =====
-- What keeps a room going for any number of jobs: GameBS/BS_GameRoom.cpp, with CoreLib/JobQueue.cpp.
use bsgame_server.Base.{ℕ, ◌≡◌, refl, sym, subst, List, [], ◌∷◌, length, arith}
use bsgame_server.Base.Int.{ℤ}
use bsgame_server.Base.Run.{done}
use bsgame_server.Geometry.{Floats}
use bsgame_server.JobQueue.{JobQueue, run_batch, execute, take_all, count_down, push_all}
use bsgame_server.Room.Job.{RoomJob}
use bsgame_server.Room.State.{Room}
use bsgame_server.Room.Seats.{keys, Seated, length-Seated}
use bsgame_server.Room.Task.{run_job, execute_room, room_task}
use bsgame_server.Room.Task.Valid.{IsRoom}
use bsgame_server.Room.Task.Keys.{Brings}
use bsgame_server.Room.Task.Jobs.{IsFair, run_job_lem}
use bsgame_server.Room.Task.Round.{room_task_lem}

-- The descriptors of a process: the limit of open files that Linux sets.
abbrev pub max_files : ℕ
max_files = 1024

-- A valid room whose sessions have different descriptors, as a process can have them.
pub record IsOpen (r : Room) : Type 0 where
  pub room : IsRoom max_files r
  pub seats : Seated max_files (keys r.sessions)

-- A hit of at most 100, and a session with such a descriptor.
abbrev pub IsFit : RoomJob → Type 0
IsFit j = IsFair j × Brings max_files j

abbrev pub AllFit : List RoomJob → Type 0
AllFit [] = Unit {0}
AllFit (j ∷ js) = IsFit j × AllFit js

-- However the number of sessions was bounded, there are no more than descriptors.
pub IsOpen-of_seats :
    {n : ℕ} {r : Room} → IsRoom n r → Seated max_files (keys r.sessions) → IsOpen r
IsOpen-of_seats {r = r} v s = record {
  room = record {
    monsters = v.monsters;
    few = v.few;
    crowd = length-Seated max_files r.sessions s;
    memory = v.memory;
    ordered = v.ordered;
  };
  seats = s;
}

module _ (results : ℤ → ℤ) where
  run_batch-IsOpen :
      (js : List RoomJob) (r : Room) (q : JobQueue RoomJob)
      → AllFit js
      → IsOpen r
      → (r' : Room) × (run_batch (run_job results) js r q ≡ done (r', q)) × IsOpen r'
  unfolding run_batch push_all
  run_batch-IsOpen [] r q f v = (r, refl, v)
  run_batch-IsOpen (j ∷ js) r q f v =
      let (r1, e1, v1, s) = run_job_lem results j r f.0.0 (omega arith) v.room in
      let (r2, e2, v2) =
        run_batch-IsOpen js r1 q f.1 (IsOpen-of_seats v1 (s max_files f.0.1 v.seats)) in
      (r2, rw e1 e2, v2)

  -- `Execute` runs every job, and empties the queue.
  pub execute_room-IsOpen :
      (r : Room) (q : JobQueue RoomJob)
      → AllFit q.q
      → IsOpen r
      → (r' : Room) × (q' : JobQueue RoomJob) × (execute_room results r q ≡ done (r', q'))
        × IsOpen r'
        × (q'.q ≡ [])
  unfolding execute_room execute take_all count_down
  execute_room-IsOpen r q f v =
      let (r', e, w) = run_batch-IsOpen q.q r (take_all q).1 f v in
      (r', count_down (take_all q).1 (length q.q), rw e refl, w, refl)

  pub room_task-IsOpen :
      (f : Floats) (rotate : ℤ → ℤ) (now later : ℕ) (r : Room)
      → IsOpen r
      → (r' : Room) × (room_task results f rotate now later r ≡ done r') × IsOpen r'
  room_task-IsOpen f rotate now later r v =
      let (r', e, w, due, same) = room_task_lem f rotate results now later r v.room in
      (r', e, IsOpen-of_seats w (subst (Seated max_files) (sym same) v.seats))
