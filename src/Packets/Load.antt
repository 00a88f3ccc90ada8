-- ===== src/Packets/Load.antt =====
-- `MakePacket(BS_LOAD_DATA)` of GameBS/BS_PacketHandler.h: what a new client is sent of the room.
use bsgame_server.Base.{ℕ, ◌≤◌, List, [], ◌∷◌, ◌++◌, length}
use bsgame_server.Base.Words.{bytes16}
use bsgame_server.Framing.Packets.{join}
use bsgame_server.SendBuffer.Chunk.{SendBuffer}
use bsgame_server.Packets.{
  fields_of, PlayerData, MonsterData, load_player_fields, load_monster_fields,
}

-- Names that fit into the 8 bytes of a pointer and the bytes that the struct is padded with.
abbrev pub ShortPlayers : List PlayerData → Type 0
ShortPlayers [] = Unit {0}
ShortPlayers (p ∷ ps) = (p.name_len ≤ 15) × ShortPlayers ps

abbrev pub ShortMonsters : List MonsterData → Type 0
ShortMonsters [] = Unit {0}
ShortMonsters (x ∷ xs) = (x.name_len ≤ 19) × ShortMonsters xs

abbrev pub load_bytes : List PlayerData → List MonsterData → List ℕ
load_bytes ps xs =
    (bytes16 (length ps) ++ join (fields_of load_player_fields ps))
    ++ (bytes16 (length xs) ++ join (fields_of load_monster_fields xs))
