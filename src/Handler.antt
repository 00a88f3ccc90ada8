-- ===== src/Handler.antt =====
-- GameBS/BS_GameSession.cpp, `BS_GameSession::HandlePacket`, with the readers of GameBS/BS_PacketUtils.h:
-- a client's packet changes its player, and becomes a job of the room.
pub mod Relay
pub mod Requests
mod Tests
use bsgame_server.Base.{
  ℕ, ◌+◌, List, [], ◌∷◌, Bool, true, false, Option, none, some, if◌then◌else◌, ◌==◌, ltb, drop,
  length,
}
use bsgame_server.Base.Int.{ℤ, pos, negsuc, ltb_ℤ, of_word, to_word}
use bsgame_server.Base.Words.{word8, word16, word32}
use bsgame_server.Base.Run.{Run, done, fault, out_of_bounds, ◌>>=◌, read}
use bsgame_server.Framing.{header_size}
use bsgame_server.JobQueue.{JobQueue, push}
use bsgame_server.Room.Job.{RoomJob, add_session, broadcast_push, broadcast, hit_monster}
use bsgame_server.SendBuffer.Chunk.{SendBuffer}
use bsgame_server.SendBuffer.Store.{Memory}
use bsgame_server.Units.{UnitInfo, set_name, set_type, set_position_yaw}
use bsgame_server.Packets.{
  Move, Attack, Hit, Chat, make_move_list, make_attack, make_hit, make_chat,
}

-- What `HandlePacket` acts on: the session's player, the memory for packets, and the jobs of room 0,
-- if there is a room 0.
pub record World : Type 0 where
  pub player : UnitInfo
  pub memory : Memory
  pub room : Option (JobQueue RoomJob)

-- `ReadBufferPtr<T>(buffer, offset)`, and the read through the pointer. Nothing compares the offset
-- with the size of the packet.
unfoldable pub read_uint8 : List ℕ → ℕ → Run ℕ
read_uint8 buffer offset = read (word8 (drop offset buffer))

unfoldable pub read_uint16 : List ℕ → ℕ → Run ℕ
read_uint16 buffer offset = read (word16 (drop offset buffer))

unfoldable pub read_uint32 : List ℕ → ℕ → Run ℕ
read_uint32 buffer offset = read (word32 (drop offset buffer))

unfoldable pub read_int32 : List ℕ → ℕ → Run ℤ
unfolding read_uint32
read_int32 buffer offset = read_uint32 buffer offset >>= λ n. done (of_word n)

-- `if (room != nullptr) { … room->PushJobQueue(job); }`.
unfoldable pub push_job : World → RoomJob → World
push_job w job = elim w.room [ none ↦ w | some q ↦ record w { room = some (push q job) } ]

-- Packet 1: the name and the type of the player, who then enters the room.
unfoldable pub handle_load : ℤ → List ℕ → World → Run World
unfolding push_job read_uint16
handle_load fd buffer w = do
  unit_type ← read_uint16 buffer header_size
  name_len ← read_uint16 buffer (header_size + 2)
  (let name = drop (header_size + 4) buffer in
      if ltb (length name) name_len
      then fault out_of_bounds
      else done (
          push_job (record w { player = set_type (set_name w.player name name_len) unit_type })
            (add_session fd)))

-- Packet 3: the player's new position, for all.
unfoldable pub handle_move : ℤ → List ℕ → World → Run World
unfolding push_job read_int32 read_uint32
handle_move fd buffer w = do
  x ← read_int32 buffer header_size
  y ← read_int32 buffer (header_size + 4)
  z ← read_int32 buffer (header_size + 8)
  yaw ← read_uint32 buffer (header_size + 12)
  (b, m) ← make_move_list w.memory (
      record { code = fd; position = record { x = x; y = y; z = z; yaw = yaw }; target = negsuc 0 }
      ∷ [])
  done (
      push_job (record w { memory = m; player = set_position_yaw w.player x y z yaw })
        (broadcast_push b))

-- A packet that is made only if there is a room.
unfoldable pub with_room :
    World → (Memory → Run (SendBuffer × Memory)) → (SendBuffer → RoomJob) → Run World
unfolding push_job
with_room w make job = elim w.room [
  | none ↦ done w
  | some q ↦ make w.memory >>= λ (b, m). done (push_job (record w { memory = m }) (job b))
]

-- Packet 4: a chat message.
unfoldable pub handle_chat : ℤ → List ℕ → World → Run World
unfolding with_room read_uint8 read_uint32
handle_chat fd buffer w = do
  chat_type ← read_uint8 buffer header_size
  text_len ← read_uint32 buffer (header_size + 1)
  with_room w
      (λ m. make_chat m (record {
        code = to_word fd;
        chat_type = chat_type;
        text_len = text_len;
        text = drop (header_size + 5) buffer;
      }))
      broadcast

-- Packet 7: an attack.
unfoldable pub handle_attack : ℤ → List ℕ → World → Run World
unfolding with_room read_int32
handle_attack fd buffer w = do
  skill_code ← read_int32 buffer header_size
  with_room w (λ m. make_attack m (record { code = fd; skill_code = skill_code })) broadcast

-- Packet 8: a hit of 10. The attacker is the player where the target is a monster, and as the packet
-- says where it is a player.
unfoldable pub handle_hit : List ℕ → World → Run World
unfolding with_room read_int32
handle_hit buffer w = do
  target_code ← read_int32 buffer header_size
  attack_code ←
      if ltb_ℤ target_code (pos 0) then done w.player.uuid else read_int32 buffer (header_size + 4)
  with_room w
      (λ m.
        make_hit m
          (record { target_code = target_code; attack_code = attack_code; damage = pos 10 }))
      (λ b. hit_monster b target_code w.player.uuid (pos 10))

-- `HandlePacket(buffer, len)`; `len` is not used.
unfoldable pub handle_packet : ℤ → List ℕ → ℕ → World → Run World
unfolding handle_load handle_move handle_chat handle_attack handle_hit read_uint16
handle_packet fd buffer len w = do id ← read_uint16 buffer 0; by_id id
  where
    by_id : ℕ → Run World
    by_id id =
        if id == 1
        then handle_load fd buffer w
        else (if id == 3
            then handle_move fd buffer w
            else (if id == 4
                then handle_chat fd buffer w
                else (if id == 7
                    then handle_attack fd buffer w
                    else (if id == 8 then handle_hit buffer w else done w))))
