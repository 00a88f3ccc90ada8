-- ===== src/Room/Task/Turns.antt =====
-- GameBS/BS_GameRoom.cpp: the constructor of a room, and that the room it makes is valid.
use bsgame_server.Base.{ℕ, zero, suc, insert, ◌+◌, ◌≤◌, List, [], length, arith}
use bsgame_server.Base.Int.{ℤ, pos}
use bsgame_server.MapInfo.{Rect}
use bsgame_server.MapInfo.Laws.{IsOrdered}
use bsgame_server.SendBuffer.Store.{Memory}
use bsgame_server.SendBuffer.Alloc
use bsgame_server.Session.{Session}
use bsgame_server.Units.{UnitInfo}
use bsgame_server.Room.{MonsterMap, init_monsters, init_from, new_monster, uuid_of}
use bsgame_server.Room.Start.{init_monsters-IsValid}
use bsgame_server.Room.State.{Room}
use bsgame_server.Room.Task.Valid.{IsRoom, length-insert}

-- `BS_GameRoom(roomId)`. `sign` prints a number in the name of a monster, `spawn` draws the places, `now` is
-- the clock.
unfoldable pub open_room :
    (ℤ → List ℕ) → (ℕ → ℤ × ℤ) → Rect → ℕ → (ℤ → Session) → (ℤ → UnitInfo) → Memory → Room
open_room sign spawn map now outside players memory = record {
  monsters = init_monsters sign spawn;
  sessions = [];
  outside = outside;
  players = players;
  map = map;
  tick = pos 0;
  tick_time = now;
  memory = memory;
  sent = [];
}

length-init_from :
    (sign : ℤ → List ℕ) (spawn : ℕ → ℤ × ℤ) (left i : ℕ) (m : MonsterMap)
    → length (init_from sign spawn left i m) ≤ length m + left
unfolding init_from
length-init_from sign spawn zero i m = omega arith
length-init_from sign spawn (suc left) i m =
    let x = new_monster sign spawn i in
    omega (
      arith,
      length-init_from sign spawn left (suc i) (insert (uuid_of i) x m),
      length-insert (uuid_of i) x m,
    )

pub open_room-IsRoom :
    (sign : ℤ → List ℕ) (spawn : ℕ → ℤ × ℤ) (map : Rect) (now : ℕ) (outside : ℤ → Session)
    (players : ℤ → UnitInfo) (memory : Memory)
    → IsOrdered map
    → Alloc.IsValid memory
    → IsRoom 0 (open_room sign spawn map now outside players memory)
unfolding open_room init_monsters
open_room-IsRoom sign spawn map now outside players memory o m = record {
  monsters = init_monsters-IsValid sign spawn;
  few = length-init_from sign spawn 10 1 [];
  crowd = omega arith;
  memory = m;
  ordered = o;
}
