-- ===== src/Handler/Tests.antt =====
-- Packets of the client with descriptor 5, to a room without jobs.
use bsgame_server.Base.{ℕ, List, ◌+◌, ◌≡◌, refl, [], ◌∷◌, ◌++◌, true, some, take, arith}
use bsgame_server.Base.Int.{pos, negsuc}
use bsgame_server.Base.Run.{done}
use bsgame_server.Base.Words.{bytes8, bytes16, bytes32}
use bsgame_server.Framing.{header_size}
use bsgame_server.JobQueue.{JobQueue, push}
use bsgame_server.SendBuffer.Alloc.{no_chunks, no_chunks-IsValid}
use bsgame_server.Units.{UnitInfo}
use bsgame_server.Packets.{int_field}
use bsgame_server.Room.Job.{RoomJob, broadcast, hit_monster}
use bsgame_server.Handler.{World, handle_packet}
use bsgame_server.Handler.Requests.{handle_packet-load}
use bsgame_server.Handler.Relay.{
  Pushed, handle_packet-hit, handle_packet-chat, handle_packet-attack,
}

abbrev player : UnitInfo
player = record {
  name = [];
  uuid = pos 5;
  name_len = 0;
  hp = pos 100;
  unit_type = 1;
  position = record { x = pos 0; y = pos 0; z = pos 0; yaw = 0 };
  is_spawned = true;
}

abbrev jobs : JobQueue RoomJob
jobs = record { q = []; q_size = pos 0 }

abbrev hero_name : List ℕ
hero_name = 65 ∷ 66 ∷ []

abbrev world : World
world = record { player = player; memory = no_chunks; room = some jobs }

handle_packet-hit_example :
    (w' : World) × (handle_packet
        (pos 5)
        (bytes16 8 ++ (bytes16 12 ++ (int_field (negsuc 2) ++ (int_field (pos 0) ++ []))))
        12
        world
      ≡ done w')
    × Pushed world jobs
        (λ b. hit_monster b (negsuc 2) (pos 5) (pos 10))
        ((bytes16 8 ++ bytes16 (12 + header_size))
          ++ (int_field (pos 5) ++ (int_field (negsuc 2) ++ int_field (pos 10))))
        player
        w'
handle_packet-hit_example =
    handle_packet-hit (pos 5) (negsuc 2) (pos 0) 12 12 [] world jobs (omega arith) (omega arith)
      no_chunks-IsValid refl

handle_packet-chat_example :
    (w' : World) × (handle_packet
        (pos 5)
        (bytes16 4 ++ (bytes16 11 ++ (bytes8 1 ++ (bytes32 2 ++ (104 ∷ 105 ∷ 0 ∷ [])))))
        11
        world
      ≡ done w')
    × Pushed world jobs broadcast
        ((bytes16 4 ++ bytes16 (9 + 2 + header_size))
          ++ (int_field (pos 5) ++ (bytes8 1 ++ (bytes32 2 ++ take 2 (104 ∷ 105 ∷ 0 ∷ [])))))
        player
        w'
handle_packet-chat_example =
    handle_packet-chat (pos 5) 1 2 11 11 (104 ∷ 105 ∷ 0 ∷ []) world jobs (omega arith) (omega arith)
      (omega arith) no_chunks-IsValid refl

handle_packet-load_example :
    handle_packet
      (pos 5)
      (bytes16 1 ++ (bytes16 10 ++ (bytes16 2 ++ (bytes16 2 ++ (hero_name ++ (7 ∷ []))))))
      10
      world
    ≡ done (record world {
      player = record player { name = hero_name; name_len = 2; unit_type = 2 };
      room = some (push jobs (RoomJob.add_session (pos 5)));
    })
handle_packet-load_example =
    handle_packet-load (pos 5) 2 hero_name 10 10 (7 ∷ []) world jobs (omega arith) (omega arith)
      refl

handle_packet-attack_example :
    (w' : World) × (handle_packet
        (pos 5)
        (bytes16 7 ++ (bytes16 8 ++ (int_field (pos 3) ++ (7 ∷ []))))
        8
        world
      ≡ done w')
    × Pushed world jobs broadcast
        ((bytes16 7 ++ bytes16 (8 + header_size)) ++ (int_field (pos 5) ++ int_field (pos 3)))
        player
        w'
handle_packet-attack_example =
    handle_packet-attack (pos 5) (pos 3) 8 8 (7 ∷ []) world jobs (omega arith) no_chunks-IsValid
      refl
