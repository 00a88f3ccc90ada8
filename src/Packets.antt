-- ===== src/Packets.antt =====
-- GameBS/BS_Packet.h and the `MakePacket` overloads of GameBS/BS_PacketHandler.h: the messages to the
-- clients, field by field. An `int32` is written as its bit pattern, a float as its four bytes.
pub mod Layout
pub mod Padded
pub mod Load
pub mod Received
mod Tests
use bsgame_server.Base.{ℕ, ◌+◌, ◌*◌, List, [], ◌∷◌, ◌++◌, Bool, if◌then◌else◌, ltb, length, take}
use bsgame_server.Base.Int.{ℤ, to_word}
use bsgame_server.Base.Words.{uint16, bytes8, bytes16, bytes32}
use bsgame_server.Base.Run.{Run, done, fault, out_of_bounds, ◌>>=◌}
use bsgame_server.Units.{Position}
use bsgame_server.SendBuffer.Chunk.{SendBuffer}
use bsgame_server.SendBuffer.Store.{Memory}
use bsgame_server.SendBuffer.Writer.{make_packet}

abbrev pub int_field : ℤ → List ℕ
int_field z = bytes32 (to_word z)

-- The four writes of a position.
abbrev pub position_fields : Position → List (List ℕ)
position_fields p = int_field p.x ∷ int_field p.y ∷ int_field p.z ∷ bytes32 p.yaw ∷ []

-- `BS_C_MOVE`: 24 bytes.
pub record Move : Type 0 where
  pub code : ℤ
  pub position : Position
  pub target : ℤ

abbrev pub move_fields : Move → List (List ℕ)
move_fields u = int_field u.code ∷ (position_fields u.position ++ (int_field u.target ∷ []))

abbrev pub fields_of {ℓ} : {A : Type ℓ} → (A → List (List ℕ)) → List A → List (List ℕ)
fields_of f [] = []
fields_of f (x ∷ xs) = f x ++ fields_of f xs

-- `BS_C_MOVE_LIST`, packet 3.
abbrev pub move_list_size : List Move → ℕ
move_list_size moves = length moves * 24 + 2

unfoldable pub make_move_list : Memory → List Move → Run (SendBuffer × Memory)
make_move_list m moves =
    make_packet m (uint16 (move_list_size moves)) 3
      (bytes16 (length moves) ∷ fields_of move_fields moves)

-- `BS_ATTACK_UNIT`, 8 bytes: packet 7 for one, packet 9 for a list.
pub record Attack : Type 0 where
  pub code : ℤ
  pub skill_code : ℤ

abbrev pub attack_fields : Attack → List (List ℕ)
attack_fields a = int_field a.code ∷ int_field a.skill_code ∷ []

unfoldable pub make_attack : Memory → Attack → Run (SendBuffer × Memory)
make_attack m a = make_packet m 8 7 (attack_fields a)

abbrev pub attack_list_size : List Attack → ℕ
attack_list_size attacks = length attacks * 8 + 2

unfoldable pub make_attack_list : Memory → List Attack → Run (SendBuffer × Memory)
make_attack_list m attacks =
    make_packet m (uint16 (attack_list_size attacks)) 9
      (bytes16 (length attacks) ∷ fields_of attack_fields attacks)

-- `BS_HIT_UNIT`, packet 8. The attacker is written before the target.
pub record Hit : Type 0 where
  pub target_code : ℤ
  pub attack_code : ℤ
  pub damage : ℤ

abbrev pub hit_fields : Hit → List (List ℕ)
hit_fields h = int_field h.attack_code ∷ int_field h.target_code ∷ int_field h.damage ∷ []

unfoldable pub make_hit : Memory → Hit → Run (SendBuffer × Memory)
make_hit m h = make_packet m 12 8 (hit_fields h)

-- `BS_CLOSE_PLAYER`, packet 6.
unfoldable pub make_close_player : Memory → ℤ → Run (SendBuffer × Memory)
make_close_player m code = make_packet m 4 6 (int_field code ∷ [])

-- `BS_C_CHAT`, packet 4. `text` is the memory from the pointer `Text` on; the length that is passed to
-- `Write` is 16 bits wide. Memory shorter than that is a fault here, also where `Write` has no room and
-- would not read it.
pub record Chat : Type 0 where
  pub code : ℕ
  pub chat_type : ℕ
  pub text_len : ℕ
  pub text : List ℕ

abbrev pub chat_fields : Chat → List (List ℕ)
chat_fields c =
    bytes32 c.code ∷ bytes8 c.chat_type ∷ bytes32 c.text_len ∷ take (uint16 c.text_len) c.text ∷ []

-- `sizeof(uint8) + sizeof(uint32) + sizeof(uint32) + TextLen`.
abbrev pub chat_size : Chat → ℕ
chat_size c = 9 + c.text_len

unfoldable pub make_chat : Memory → Chat → Run (SendBuffer × Memory)
make_chat m c =
    if ltb (length c.text) (uint16 c.text_len)
    then fault out_of_bounds
    else make_packet m (uint16 (chat_size c)) 4 (chat_fields c)

-- `Player`: `size()` counts the struct's parts, a pointer of 8 bytes for the name among them.
pub record PlayerData : Type 0 where
  pub player_type : ℕ
  pub hp : ℕ
  pub code : ℤ
  pub position : Position
  pub name_len : ℕ
  pub name : List ℕ

abbrev pub player_size : ℕ
player_size = 1 + 4 + 16 + 2 * 2 + 8

abbrev pub player_fields : PlayerData → List (List ℕ)
player_fields p =
    bytes16 p.player_type
    ∷ bytes8 p.hp
    ∷ int_field p.code
    ∷ bytes16 p.name_len
    ∷ take p.name_len p.name
    ∷ []

-- `MakePacket(Player)`, packet 2, and `MakeMyPacket`, packet 5.
unfoldable pub make_player : Memory → PlayerData → Run (SendBuffer × Memory)
make_player m p = make_packet m player_size 2 (player_fields p)

unfoldable pub make_my_player : Memory → PlayerData → Run (SendBuffer × Memory)
make_my_player m p = make_packet m player_size 5 (player_fields p)

-- `Monster`.
pub record MonsterData : Type 0 where
  pub monster_type : ℕ
  pub hp : ℕ
  pub code : ℤ
  pub target : ℤ
  pub position : Position
  pub name_len : ℕ
  pub name : List ℕ

-- The records of `BS_LOAD_DATA`, packet 1. Its `size()` takes `sizeof` of both structs: 40 and 48.
abbrev pub load_player_fields : PlayerData → List (List ℕ)
load_player_fields p =
    bytes16 p.player_type
    ∷ bytes8 p.hp
    ∷ int_field p.code
    ∷ (position_fields p.position ++ (bytes16 p.name_len ∷ take p.name_len p.name ∷ []))

abbrev pub load_monster_fields : MonsterData → List (List ℕ)
load_monster_fields x =
    bytes16 x.monster_type
    ∷ bytes8 x.hp
    ∷ int_field x.code
    ∷ int_field x.target
    ∷ (position_fields x.position ++ (bytes16 x.name_len ∷ take x.name_len x.name ∷ []))

abbrev pub load_size : List PlayerData → List MonsterData → ℕ
load_size players monsters = length players * 40 + length monsters * 48 + 2 * 2

unfoldable pub make_load : Memory → List PlayerData → List MonsterData → Run (SendBuffer × Memory)
make_load m players monsters = make_packet m (uint16 (load_size players monsters)) 1 (
    (bytes16 (length players) ∷ fields_of load_player_fields players)
    ++ (bytes16 (length monsters) ∷ fields_of load_monster_fields monsters))

-- `User` and `BS_USER_DATA`, packet 1 of a server that no code sends. `pointer` is the eight bytes of `Name`
-- itself, which `bw.Write(&user.Name)` writes; the length of the name is not written.
pub record User : Type 0 where
  pub code : ℕ
  pub name_len : ℕ
  pub pointer : List ℕ
  pub name : List ℕ

abbrev pub user_fields : User → List (List ℕ)
user_fields u = bytes32 u.code ∷ u.pointer ∷ take u.name_len u.name ∷ []

pub user_data_size : List User → ℕ
user_data_size [] = 0
user_data_size (u ∷ us) = u.name_len + 2 * 2 + user_data_size us

unfoldable pub make_user_data : Memory → List User → Run (SendBuffer × Memory)
make_user_data m users =
    make_packet m (uint16 (user_data_size users)) 1 (fields_of user_fields users)
