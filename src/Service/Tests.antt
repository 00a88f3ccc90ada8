-- ===== src/Service/Tests.antt =====
-- A client that is there moves.
use bsgame_server.Base.{ℕ, ◌≡◌, refl, List, [], ◌∷◌, ◌++◌, true, some, lookup, arith, ap, inl}
use bsgame_server.Base.Int.{pos, negsuc}
use bsgame_server.Base.Run.{done, ◌>>=◌}
use bsgame_server.RecvBuffer.{create}
use bsgame_server.RecvBuffer.Queue.{create-IsValid}
use bsgame_server.JobQueue.{JobQueue}
use bsgame_server.SendBuffer.Alloc.{no_chunks}
use bsgame_server.Units.{UnitInfo}
use bsgame_server.Handler.{World, handle_packet}
use bsgame_server.Room.Job.{RoomJob}
use bsgame_server.Session.{Session}
use bsgame_server.Service.{Service, no_sessions}
use bsgame_server.Service.Table.{IsEntry}
use bsgame_server.Service.Client.{read_game_client, move_packet, read_game_client_lem}
use bsgame_server.Base.Int.{◌≤ℤ◌, sub_int32, ◌-ℤ◌, int32, ◌*ℤ◌}
use bsgame_server.Base.Words.{word16}
use bsgame_server.RecvBuffer
use bsgame_server.RecvBuffer.{free_size}
use bsgame_server.RecvBuffer.Laws.{pending}
use bsgame_server.RecvBuffer.Queue.{pending-create}
use bsgame_server.Framing.{packet_size}
use bsgame_server.Framing.Packets.{handle_all, IsPacket}
use bsgame_server.Packets.{Move}

abbrev client : Session
client = record {
  socket_fd = pos 7;
  connected = true;
  recv_buffer = create (pos 0x10000);
  send_buffers = [];
}

abbrev one_session : Service
one_session = record no_sessions { session_map = (pos 7, some client) ∷ []; session_count = pos 1 }

client-IsEntry : IsEntry (pos 7) client
client-IsEntry = record {
  own = refl;
  connected = refl;
  buffer = create-IsValid 0x10000 (omega arith);
}

client_there : lookup (pos 7) one_session.session_map ≡ some (some client)
unfolding lookup
client_there = refl

abbrev nobody : UnitInfo
nobody = record {
  name = [];
  uuid = pos 7;
  name_len = 0;
  hp = pos 100;
  unit_type = 1;
  position = record { x = pos 0; y = pos 0; z = pos 0; yaw = 0 };
  is_spawned = true;
}

abbrev jobs : JobQueue RoomJob
jobs = record { q = []; q_size = pos 0 }

abbrev world : World
world = record { player = nobody; memory = no_chunks; room = some jobs }

abbrev walk : List ℕ
walk = move_packet (pos 30) (negsuc 6) (pos 100) 9

client_empty : pending client.recv_buffer ≡ []
client_empty = pending-create 0x10000 (omega arith)

client_free : pos 600000 ≤ℤ free_size client.recv_buffer
unfolding RecvBuffer.create free_size sub_int32 ◌-ℤ◌ int32 ◌*ℤ◌
client_free = omega arith

abbrev walked : Move
walked = record {
  code = pos 7;
  position = record { x = pos 30; y = negsuc 6; z = pos 100; yaw = 9 };
  target = negsuc 0;
}

-- A packet of a number that the server does not know, and the first byte of the next.
abbrev unknown_packet : List ℕ
unknown_packet = 99 ∷ 0 ∷ 4 ∷ 0 ∷ []

unknown_packet-IsPacket : IsPacket unknown_packet
unfolding packet_size word16
unknown_packet-IsPacket = (omega arith, refl)

read_game_client_lem_example :
    (s' : Session) × (junk : List ℕ) × (v' : Service) × (read_game_client 2
        (pos 7)
        (record { incoming = 99 ∷ 0 ∷ 4 ∷ 0 ∷ 7 ∷ []; would_block = true } ∷ [])
        one_session
        world
      ≡ (handle_all (handle_packet (pos 7)) (unknown_packet ∷ []) ((7 ∷ []) ++ junk) world >>= λ w'.
          done (v', w')))
    × (lookup (pos 7) v'.session_map ≡ some (some s'))
    × IsEntry (pos 7) s'
    × (pending s'.recv_buffer ≡ 7 ∷ [])
read_game_client_lem_example =
    read_game_client_lem 2 (pos 7) client 99 (0 ∷ 4 ∷ 0 ∷ 7 ∷ []) unknown_packet [] (7 ∷ [])
      one_session world client_there client-IsEntry (omega (arith, client_free))
      (ap (λ l. l ++ (99 ∷ 0 ∷ 4 ∷ 0 ∷ 7 ∷ [])) client_empty) (unknown_packet-IsPacket, tt)
      (inl (omega arith)) (omega arith)
