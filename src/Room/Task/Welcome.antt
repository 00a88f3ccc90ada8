-- ===== src/Room/Task/Welcome.antt =====
-- GameBS/BS_GameRoom.cpp, `BS_GameRoom::AddSession`: what each client is sent when one enters.
use bsgame_server.Base.{◌≡◌, map, List, [], ◌∷◌, ◌++◌, true, false, some, lookup}
use bsgame_server.Base.Int.{ℤ, eqb_ℤ}
use bsgame_server.Base.Run.{done}
use bsgame_server.Session.{Session}
use bsgame_server.SendBuffer.Chunk.{SendBuffer}
use bsgame_server.SendBuffer.Store.{Memory}
use bsgame_server.Packets.{make_load, make_player, make_my_player}
use bsgame_server.Room.Sessions.{SessionMap}
use bsgame_server.Base.{IntMap}
use bsgame_server.Room.State.{Room}
use bsgame_server.Room.Task.Roster.{player_entry, monster_entry, player_entries, on_map}

-- What a broadcast that leaves out `fd` gives `sendmsg`, with `b` for each other connected session of the room.
pub record Told (fd : ℤ) (b : SendBuffer) (m : SessionMap) (out : IntMap (List SendBuffer))
    : Type 0 where
  pub none_itself : lookup fd out ≡ some []
  pub others :
      (k : ℤ) (s : Session)
      → eqb_ℤ fd k ≡ false
      → lookup k m ≡ some s
      → s.connected ≡ true
      → lookup k out ≡ some (s.send_buffers ++ (b ∷ []))

-- The three messages of `AddSession`: all players that were in the room and all monsters on the map; the new
-- player; and the new player again, for itself.
pub record Greetings (fd : ℤ) (r : Room) (load player mine : SendBuffer) : Type 0 where
  pub after_load : Memory
  pub after_player : Memory
  pub after_mine : Memory
  pub load_lem :
      make_load r.memory
        (player_entries r.players r.sessions)
        (map monster_entry (on_map r.monsters))
      ≡ done (load, after_load)
  pub player_lem :
      make_player after_load (player_entry (r.players fd)) ≡ done (player, after_player)
  pub mine_lem : make_my_player after_player (player_entry (r.players fd)) ≡ done (mine, after_mine)
