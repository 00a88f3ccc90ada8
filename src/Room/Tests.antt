-- ===== src/Room/Tests.antt =====
-- A new room, one hit on a monster of it, and a respawn; two clients and the messages to them; and a
-- room with both clients, through a client that enters and a round of the monsters.
use bsgame_server.Base.{◌≤◌, ◌==◌, insert, refl, true, lookup, ℕ, ◌≡◌, List, [], ◌∷◌, arith}
use bsgame_server.Base.Int.{ℤ, pos, negsuc, pos_part}
use bsgame_server.Base.Run.{done}
use bsgame_server.Room.{
  MonsterMap, monster_size, init_from, init_monsters, monster_hit, span_monsters,
}
use bsgame_server.Room.Monsters.{IsValid, Spanned, monster_hit-IsValid, span_monsters_lem}
use bsgame_server.RecvBuffer
use bsgame_server.SendBuffer.Chunk.{SendBuffer}
use bsgame_server.Session.{Session}
use bsgame_server.Room.Sessions.{SessionMap, broadcast, broadcast_push_all, broadcast_flushes}
use bsgame_server.Base.{◌+◌, ◌-◌, ◌%◌, ◌^◌, ltb, length}
use mathlib.Core.List.{Perm}
use bsgame_server.Geometry.{Floats}
use bsgame_server.MapInfo.{Rect, create}
use bsgame_server.MapInfo.Laws.{Inside, IsOrdered, create-IsOrdered}
use bsgame_server.SendBuffer.Alloc.{no_chunks, no_chunks-IsValid}
use bsgame_server.Units.{UnitInfo}
use bsgame_server.Units.Monster
use bsgame_server.Units.Monster.{Monster}
use bsgame_server.Room.State.{Room}
use bsgame_server.Room.Moves.{moves, move_of, wander, move_all}
use bsgame_server.Room.Moves.Wander.{wander_lem}
use bsgame_server.Room.Moves.Announce.{told, free_codes, told_lem}
use bsgame_server.Room.Task.{room_task}
use bsgame_server.Room.Task.Valid.{IsRoom}
use bsgame_server.Room.Seats.{keys}
use bsgame_server.Room.Task.Round.{Rounded, room_task_lem}
use bsgame_server.Base.{some, ◌++◌}
use bsgame_server.Room.Task.Turns.{open_room}
use bsgame_server.Room.Start.{init_monsters-IsValid}

abbrev pub minus_sign : ℤ → List ℕ
minus_sign k = 45 ∷ 49 ∷ []

abbrev pub corner : ℕ → ℤ × ℤ
corner i = (pos i, negsuc 3)

abbrev monsters : MonsterMap
monsters = init_monsters minus_sign corner

monsters-IsValid : IsValid monsters
monsters-IsValid = init_monsters-IsValid minus_sign corner

monster_hit-IsValid_example : IsValid (monster_hit monsters (negsuc 3) (pos 7) (pos 10)).0
monster_hit-IsValid_example =
    monster_hit-IsValid (negsuc 3) (pos 7) 10 (omega arith) monsters-IsValid

span_monsters_lem_example :
    (m' : MonsterMap) × (span_monsters monsters ≡ done m')
    × Spanned 1 monster_size monsters m'
    × IsValid m'
span_monsters_lem_example = span_monsters_lem monsters monsters-IsValid

-- Two clients, of which one has a message waiting.
abbrev client : ℤ → List SendBuffer → Session
client fd waiting = record {
  socket_fd = fd;
  connected = true;
  recv_buffer = RecvBuffer.create (pos 1);
  send_buffers = waiting;
}

abbrev message : ℕ → SendBuffer
message n = record { owner = 0; start = n; alloc_size = 8; write_size = 8 }

abbrev pub clients : SessionMap
clients = (pos 5, client (pos 5) []) ∷ (pos 6, client (pos 6) (message 0 ∷ [])) ∷ []

-- An arithmetic to run the code with, not that of the processor.
abbrev pub sums : Floats
sums = record {
  float_of_int = λ z. pos_part z;
  int_of_float = λ a. pos a;
  double_of_int = λ z. pos_part z;
  int_of_double = λ a. pos a;
  float_add = λ a b. a + b;
  float_sub = λ a b. a + b;
  float_mul = λ a b. a + b;
  float_div = λ a b. a + b;
  float_atan2 = λ a b. a + b;
  double_add = λ a b. a + b;
  double_sub = λ a b. a + b;
  double_mul = λ a b. a + b;
  double_div = λ a b. a + b;
  double_pow = λ a b. a + b;
  float_of_double = λ a. a;
  double_of_float = λ a. a;
  float_sqrt = λ a. a;
  float_cos = λ a. a;
  float_sin = λ a. a;
  double_sqrt = λ a. a;
  double_cos = λ a. a;
  double_sin = λ a. a;
  double_acos = λ a. a;
  is_zero = λ a. a == 0;
  is_positive = λ a. ltb 0 a;
}

abbrev pub field : Rect
field = create (pos 5) (pos 5)

pub field-IsOrdered : IsOrdered field
field-IsOrdered = create-IsOrdered 5 5 (omega arith) (omega arith) (omega arith) (omega arith)

abbrev wolf : Monster
wolf = Monster.create [] 0 (negsuc 2)

wander_lem_example :
    Inside field
      (wander sums (λ k. pos 90) field (pos 1) (negsuc 2) wolf).0.position.x
      (wander sums (λ k. pos 90) field (pos 1) (negsuc 2) wolf).0.position.y
    × ((wander sums (λ k. pos 90) field (pos 1) (negsuc 2) wolf).1
        ≡ moves (move_of (wander sums (λ k. pos 90) field (pos 1) (negsuc 2) wolf).0 (negsuc 0)))
wander_lem_example = wander_lem sums (λ k. pos 90) field (pos 1) (negsuc 2) wolf field-IsOrdered

abbrev pub hero : ℤ → UnitInfo
hero fd = record {
  name = [];
  uuid = fd;
  name_len = 0;
  hp = pos 100;
  unit_type = 1;
  position = record { x = pos 0; y = pos 0; z = pos 0; yaw = 0 };
  is_spawned = true;
}

told_lem_example :
    Perm
      (told (move_all sums (λ k. pos 90) field clients hero (pos 0) monsters).1)
      (free_codes monsters)
told_lem_example = told_lem sums (λ k. pos 90) field clients hero (pos 0) monsters

abbrev pub room : Room
room = open_room minus_sign corner field 1000 (λ fd. client fd []) hero no_chunks

monsters_few : length monsters ≤ 10
unfolding init_monsters init_from insert
monsters_few = omega arith

room-IsRoom : IsRoom 0 room
unfolding open_room
room-IsRoom = record {
  monsters = monsters-IsValid;
  few = monsters_few;
  crowd = omega arith;
  memory = no_chunks-IsValid;
  ordered = field-IsOrdered;
}

room_task_lem_example :
    (r' : Room) × (room_task (λ fd. pos 8) sums (λ k. pos 90) 1501 1502 room ≡ done r')
    × IsRoom 0 r'
    × Rounded sums
        (λ k. pos 90)
        (λ fd. pos 8)
        1502
        room
        (ltb 500 ((1501 + 2 ^ 64 - room.tick_time) % 2 ^ 64))
        r'
    × (keys r'.sessions ≡ keys room.sessions)
room_task_lem_example = room_task_lem sums (λ k. pos 90) (λ fd. pos 8) 1501 1502 room room-IsRoom

-- The room with both clients; a third one enters.
abbrev crowded : Room
crowded = record room { sessions = clients }

waiting_client : lookup (pos 6) clients ≡ some (client (pos 6) (message 0 ∷ []))
unfolding lookup
waiting_client = refl

broadcast_flushes_example :
    (lookup
        (pos 6)
        (broadcast (λ fd. pos 8) (message 2) (broadcast_push_all (message 1 ∷ []) clients)).1
      ≡ some ((message 0 ∷ []) ++ ((message 1 ∷ []) ++ (message 2 ∷ []))))
    × (lookup
          (pos 6)
          (broadcast (λ fd. pos 8) (message 2) (broadcast_push_all (message 1 ∷ []) clients)).0
        ≡ some (client (pos 6) []))
broadcast_flushes_example =
    broadcast_flushes (λ fd. pos 8) (message 1 ∷ []) (message 2) clients (pos 6)
      (client (pos 6) (message 0 ∷ [])) waiting_client refl
