-- ===== src/Packets/Tests.antt =====
-- Packets of a thread that has not allocated before.
use bsgame_server.Base.{ℕ, ◌+◌, ◌≡◌, List, [], ◌∷◌, ◌++◌, arith}
use bsgame_server.Base.Int.{pos, negsuc}
use bsgame_server.Framing.{header_size}
use bsgame_server.SendBuffer.Alloc.{no_chunks, no_chunks-IsValid}
use bsgame_server.Packets.{PlayerData}
use bsgame_server.Base.{length}
use bsgame_server.Base.Run.{Run, done, ◌>>=◌}
use bsgame_server.Framing.{on_recv}
use bsgame_server.SendBuffer.Chunk.{SendBuffer}
use bsgame_server.SendBuffer.Store.{Memory, content}
use bsgame_server.SendBuffer.Writer.{make_packet}
use bsgame_server.Packets.{MonsterData}
use bsgame_server.Packets.Received.{made-received}

abbrev named : List ℕ → ℕ → PlayerData
named name name_len = record {
  player_type = 1;
  hp = 100;
  code = pos 5;
  position = record { x = pos 0; y = pos 0; z = pos 0; yaw = 0 };
  name_len = name_len;
  name = name;
}

abbrev guest : PlayerData
guest = record {
  player_type = 1;
  hp = 100;
  code = pos 6;
  position = record { x = pos 1; y = pos 2; z = pos 100; yaw = 0 };
  name_len = 2;
  name = 65 ∷ 66 ∷ [];
}

abbrev wolf : MonsterData
wolf = record {
  monster_type = 11;
  hp = 90;
  code = negsuc 2;
  target = negsuc 0;
  position = record { x = pos 1; y = pos 2; z = pos 100; yaw = 0 };
  name_len = 2;
  name = 87 ∷ 0 ∷ [];
}

abbrev collect : List ℕ → ℕ → List ℕ → Run (List ℕ)
collect packet size s = done (s ++ packet)

made-received_example :
    (b : SendBuffer) × (m' : Memory) × (make_packet no_chunks 3 4 ((1 ∷ 2 ∷ []) ∷ (3 ∷ []) ∷ [])
      ≡ done (b, m'))
    × (length (content m' b) ≡ 3 + header_size)
    × (on_recv collect 2 (content m' b) (length (content m' b)) [] ≡ (
        collect (content m' b) (length (content m' b)) [] >>= λ s'.
        done (s', length (content m' b))))
made-received_example =
    made-received collect 2 [] no_chunks 3 4 ((1 ∷ 2 ∷ []) ∷ (3 ∷ []) ∷ []) (omega arith)
      no_chunks-IsValid (omega arith) (omega arith)
