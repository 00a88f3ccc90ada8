-- ===== src/Handler/Relay.antt =====
-- GameBS/BS_GameSession.cpp, `HandlePacket`: what becomes of a client's move, hit, chat message
-- and attack.
use bsgame_server.Base.{
  ℕ, ◌+◌, ◌≡◌, refl, ◌<◌, ◌^◌, List, [], ◌∷◌, ◌++◌, Bool, true, false, some, if◌then◌else◌, drop,
  arith, ◌≤◌, length, take,
}
use bsgame_server.Base.Int.{ℤ, pos, negsuc, ltb_ℤ, IsInt32, to_word, of_word-to_word, to_word-lt}
use bsgame_server.Base.Words.{bytes8, word8, bytes16, bytes32, word16, word32-bytes32}
use bsgame_server.Base.Run.{done}
use bsgame_server.Framing.{header_size}
use bsgame_server.Framing.Packets.{join}
use bsgame_server.JobQueue.{JobQueue, push}
use bsgame_server.SendBuffer.Chunk.{SendBuffer}
use bsgame_server.SendBuffer.Store.{content}
use bsgame_server.SendBuffer.Alloc.{IsValid}
use bsgame_server.Units.{UnitInfo, set_position_yaw}
use bsgame_server.Packets.{Chat, Move, int_field, move_fields}
use bsgame_server.Packets.Layout.{make_move_list_lem, make_attack_lem, make_hit_lem, make_chat_lem}
use native.Mathlib.Nat.{mod-eq_of_lt}
use bsgame_server.Room.Job.{RoomJob, broadcast_push, broadcast, hit_monster}
use bsgame_server.Handler.{
  World, read_int32, read_uint32, read_uint16, read_uint8, handle_chat, push_job, with_room,
  handle_move, handle_attack, handle_hit, handle_packet,
}

-- One job was pushed, and nothing else of the world differs but the memory, which holds these bytes for
-- the job's packet.
pub record Pushed (w : World) (q : JobQueue RoomJob) (job : SendBuffer → RoomJob) (bytes : List ℕ)
    (player : UnitInfo) (w' : World) : Type 0 where
  pub packet : SendBuffer
  pub jobs : w'.room ≡ some (push q (job packet))
  pub bytes_lem : content w'.memory packet ≡ bytes
  pub valid : IsValid w'.memory
  pub player_lem : w'.player ≡ player

read_uint32_lem :
    (n : ℕ) (rest buffer : List ℕ) (offset : ℕ)
    → n < 2 ^ 32
    → drop offset buffer ≡ bytes32 n ++ rest
    → read_uint32 buffer offset ≡ done n
unfolding read_uint32
read_uint32_lem n rest buffer offset h e = rw (e, word32-bytes32 n rest h) refl

read_int32_lem :
    (z : ℤ) (rest buffer : List ℕ) (offset : ℕ)
    → IsInt32 z
    → drop offset buffer ≡ int_field z ++ rest
    → read_int32 buffer offset ≡ done z
unfolding read_int32
read_int32_lem z rest buffer offset h e =
    rw (read_uint32_lem (to_word z) rest buffer offset (to_word-lt z) e, of_word-to_word z h) refl

-- With a room and valid memory, a client's attack with a skill that is an `int32` becomes one broadcast, of a
-- packet with the client's code and the same skill; the player stays as it is.
pub handle_packet-attack :
    (fd skill : ℤ) (size len : ℕ) (rest : List ℕ) (w : World) (q : JobQueue RoomJob)
    → IsInt32 skill
    → IsValid w.memory
    → w.room ≡ some q
    → (w' : World) × (handle_packet fd
          (bytes16 7 ++ (bytes16 size ++ (int_field skill ++ rest)))
          len
          w
        ≡ done w')
      × Pushed w q broadcast
          ((bytes16 7 ++ bytes16 (8 + header_size)) ++ (int_field fd ++ int_field skill))
          w.player
          w'
unfolding handle_packet handle_attack with_room push_job read_uint16 word16
handle_packet-attack fd skill size len rest w q h v e =
    let (b, m, made, bytes, valid) =
      make_attack_lem w.memory (record { code = fd; skill_code = skill }) v in
    (
      record w { memory = m; room = some (push q (broadcast b)) },
      rw
          (
            read_int32_lem skill rest (bytes16 7 ++ (bytes16 size ++ (int_field skill ++ rest)))
                header_size h refl,
            e,
            made,
          )
          refl,
      record { packet = b; jobs = refl; bytes_lem = bytes; valid = valid; player_lem = refl },
    )

-- With a room and valid memory, a client's move, of three `int32` and the bits of a float,
-- becomes its player's position, and one move list with the client's code, the position and no
-- target, whose job queues it in every session.
pub handle_packet-move :
    (fd x y z : ℤ) (yaw size len : ℕ) (rest : List ℕ) (w : World) (q : JobQueue RoomJob)
    → IsInt32 x
    → IsInt32 y
    → IsInt32 z
    → yaw < 2 ^ 32
    → IsValid w.memory
    → w.room ≡ some q
    → let move : Move = record {
      code = fd;
      position = record { x = x; y = y; z = z; yaw = yaw };
      target = negsuc 0;
    } in
      (w' : World) × (handle_packet fd
          (bytes16 3
            ++ (bytes16 size
                ++ (int_field x ++ (int_field y ++ (int_field z ++ (bytes32 yaw ++ rest))))))
          len
          w
        ≡ done w')
      × Pushed w q broadcast_push
          ((bytes16 3 ++ bytes16 (26 + header_size)) ++ (bytes16 1 ++ join (move_fields move)))
          (set_position_yaw w.player x y z yaw)
          w'
unfolding handle_packet handle_move push_job read_uint16 word16
handle_packet-move fd x y z yaw size len rest w q hx hy hz h v e =
    let buffer : List ℕ =
      bytes16 3
      ++ (bytes16 size
          ++ (int_field x ++ (int_field y ++ (int_field z ++ (bytes32 yaw ++ rest))))) in
    let (b, m, made, bytes, valid) =
      make_move_list_lem w.memory
        (record {
          code = fd;
          position = record { x = x; y = y; z = z; yaw = yaw };
          target = negsuc 0;
        }
          ∷ [])
        v (omega arith) in
    (
      record w {
        memory = m;
        player = set_position_yaw w.player x y z yaw;
        room = some (push q (broadcast_push b));
      },
      rw
          (
            read_int32_lem x (int_field y ++ (int_field z ++ (bytes32 yaw ++ rest))) buffer
                header_size hx refl,
            read_int32_lem y (int_field z ++ (bytes32 yaw ++ rest)) buffer (header_size + 4) hy
                refl,
            read_int32_lem z (bytes32 yaw ++ rest) buffer (header_size + 8) hz refl,
            read_uint32_lem yaw rest buffer (header_size + 12) h refl,
            e,
            made,
          )
          refl,
      record { packet = b; jobs = refl; bytes_lem = bytes; valid = valid; player_lem = refl },
    )

if-done : (c : Bool) (x y : ℤ) → (if c then done x else done y) ≡ done (if c then x else y)
if-done true x y = refl
if-done false x y = refl

-- With a room and valid memory, a client's hit becomes one job that hits the target for 10 in
-- the name of the client's player; its message names that player as the attacker if the target
-- is a monster, and otherwise the attacker that the packet names.
pub handle_packet-hit :
    (fd target attack : ℤ) (size len : ℕ) (rest : List ℕ) (w : World) (q : JobQueue RoomJob)
    → IsInt32 target
    → IsInt32 attack
    → IsValid w.memory
    → w.room ≡ some q
    → let attacker : ℤ = if ltb_ℤ target (pos 0) then w.player.uuid else attack in
      (w' : World) × (handle_packet fd
          (bytes16 8 ++ (bytes16 size ++ (int_field target ++ (int_field attack ++ rest))))
          len
          w
        ≡ done w')
      × Pushed w q
          (λ b. hit_monster b target w.player.uuid (pos 10))
          ((bytes16 8 ++ bytes16 (12 + header_size))
            ++ (int_field attacker ++ (int_field target ++ int_field (pos 10))))
          w.player
          w'
unfolding handle_packet handle_hit with_room push_job read_uint16 word16
handle_packet-hit fd target attack size len rest w q ht ha v e =
    let buffer : List ℕ =
      bytes16 8 ++ (bytes16 size ++ (int_field target ++ (int_field attack ++ rest))) in
    let attacker : ℤ = if ltb_ℤ target (pos 0) then w.player.uuid else attack in
    let (b, m, made, bytes, valid) =
      make_hit_lem w.memory
        (record { target_code = target; attack_code = attacker; damage = pos 10 }) v in
    (
      record w { memory = m; room = some (push q (hit_monster b target w.player.uuid (pos 10))) },
      rw
          (
            read_int32_lem target (int_field attack ++ rest) buffer header_size ht refl,
            read_int32_lem attack rest buffer (header_size + 4) ha refl,
            if-done (ltb_ℤ target (pos 0)) w.player.uuid attack,
            e,
            made,
          )
          refl,
      record { packet = b; jobs = refl; bytes_lem = bytes; valid = valid; player_lem = refl },
    )

-- With a room and valid memory, a client's chat message that announces at most 65522 bytes, and
-- no more than the receive buffer has, becomes one broadcast of as many bytes of the buffer as
-- it announces, from the text on. The size of the packet plays no part: a message that announces
-- more than its packet holds is filled up with what the buffer holds behind the packet.
pub handle_packet-chat :
    (fd : ℤ) (chat_type text_len size len : ℕ) (text : List ℕ) (w : World) (q : JobQueue RoomJob)
    → chat_type < 2 ^ 8
    → text_len ≤ 65522
    → text_len ≤ length text
    → IsValid w.memory
    → w.room ≡ some q
    → (w' : World) × (handle_packet fd
          (bytes16 4 ++ (bytes16 size ++ (bytes8 chat_type ++ (bytes32 text_len ++ text))))
          len
          w
        ≡ done w')
      × Pushed w q broadcast
          ((bytes16 4 ++ bytes16 (9 + text_len + header_size))
            ++ (int_field fd ++ (bytes8 chat_type ++ (bytes32 text_len ++ take text_len text))))
          w.player
          w'
unfolding handle_packet handle_chat with_room push_job read_uint8 read_uint16 word8 word16
handle_packet-chat fd chat_type text_len size len text w q ht hl hk v e =
    let buffer : List ℕ =
      bytes16 4 ++ (bytes16 size ++ (bytes8 chat_type ++ (bytes32 text_len ++ text))) in
    let chat : Chat = record {
      code = to_word fd;
      chat_type = chat_type;
      text_len = text_len;
      text = text;
    } in
    let (b, m, made, bytes, valid) = make_chat_lem w.memory chat v hl hk in
    (
      record w { memory = m; room = some (push q (broadcast b)) },
      rw
          (
            read_uint32_lem text_len text buffer (header_size + 1) (omega arith) refl,
            mod-eq_of_lt {n = chat_type} {m = 256} (omega arith),
            e,
            made,
          )
          refl,
      record { packet = b; jobs = refl; bytes_lem = bytes; valid = valid; player_lem = refl },
    )
