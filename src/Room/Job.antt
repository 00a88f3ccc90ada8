-- ===== src/Room/Job.antt =====
-- The jobs of a room (CoreLib/Job.h): the method of GameBS/BS_GameRoom.h, and the arguments that it is
-- bound to. A session is named by its descriptor.
use bsgame_server.Base.Int.{ℤ}
use bsgame_server.SendBuffer.Chunk.{SendBuffer}

pub data RoomJob : Type 0 where
  add_session : ℤ → RoomJob
  del_session : ℤ → RoomJob
  broadcast_push : SendBuffer → RoomJob
  broadcast : SendBuffer → RoomJob
  broadcast_another : SendBuffer → ℤ → RoomJob
  hit_monster : SendBuffer → ℤ → ℤ → ℤ → RoomJob
