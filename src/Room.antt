-- ===== src/Room.antt =====
-- GameBS/BS_GameRoom.h, GameBS/BS_GameRoom.cpp: the monsters of a room, which the room makes at its
-- start, brings back to life every half second, and hits on request.
pub mod Monsters
pub mod Start
pub mod Sessions
pub mod Seats
pub mod Job
pub mod State
pub mod Moves
pub mod Entry
pub mod Task
pub mod Tests
use bsgame_server.Base.{
  ℕ, zero, suc, ◌+◌, ◌-◌, ◌/◌, ◌%◌, List, [], ◌∷◌, ◌++◌, Bool, true, false, Option, none, some,
  if◌then◌else◌, IntMap, lookup, insert, length,
}
use bsgame_server.Base.Int.{
  ℤ, pos, negsuc, pos_part, sub_ℕ, add_int32, sub_int32, mul_int32, rem_ℤ, to_word,
}
use bsgame_server.Base.Words.{uint16}
use bsgame_server.Base.Run.{Run, done, fault, null_pointer, ◌>>=◌}
use bsgame_server.MapInfo.{Rect, start_x, start_y, end_x, end_y}
use bsgame_server.Units.{set_name, set_type, set_position, set_spawn, take_demage, die_unit}
use bsgame_server.Units.Monster.{
  Monster, create, set_spawn_position, reset_spawn, set_moving, set_attack_player,
}

abbrev pub MonsterMap : Type 0
MonsterMap = IntMap Monster

-- `_monsterSize`.
abbrev pub monster_size : ℕ
monster_size = 10

-- `i * (-1)`.
abbrev pub uuid_of : ℕ → ℤ
uuid_of i = sub_ℕ 0 i

-- `_monsterMap[uuid]->…`: a missing key gives a null pointer.
unfoldable pub at : MonsterMap → ℤ → Run Monster
at m uuid = elim (lookup uuid m) [ none ↦ fault null_pointer | some x ↦ done x ]

-- The constructor. `draws i` are the two numbers that `disX` and `disY` give for monster `i`, and
-- `to_wstring` is the library's decimal print, in UTF-16 units.
module _ (to_wstring : ℤ → List ℕ) (draws : ℕ → ℤ × ℤ) where
  -- The low byte of each unit, then the high one.
  pub split_units : List ℕ → List ℕ
  split_units [] = []
  split_units (u ∷ us) = u % 256 ∷ u / 256 % 256 ∷ split_units us

  -- The name starts with three Hangul syllables.
  unfoldable pub monster_name : ℤ → List ℕ
  unfolding split_units
  monster_name uuid = split_units (0xBAAC ∷ 0xC2A4 ∷ 0xD130 ∷ to_wstring uuid)

  unfoldable pub new_monster : ℕ → Monster
  unfolding create set_type set_spawn_position set_position set_name
  new_monster i =
      let uuid = uuid_of i in
      let (start_x, start_y) = draws i in
      let name = monster_name uuid in
      let x = create [] 0 uuid in
      let placed = set_spawn_position x start_x start_y in
      let unit_type = uint16 (to_word (add_int32 (pos 10) (mul_int32 (rem_ℤ uuid 5) (negsuc 0)))) in
      record placed {
        info =
            set_name (set_position (set_type placed.info unit_type) start_x start_y (pos 100)) name
              (uint16 (length name));
      }

  unfoldable pub init_from : ℕ → ℕ → MonsterMap → MonsterMap
  unfolding new_monster
  init_from zero i m = m
  init_from (suc left) i m = init_from left (suc i) (insert (uuid_of i) (new_monster i) m)

  unfoldable pub init_monsters : MonsterMap
  unfolding init_from
  init_monsters = init_from monster_size 1 []

-- One round of `SpanMoster`.
unfoldable pub span_one : MonsterMap → ℤ → Run MonsterMap
unfolding at
span_one m uuid = at m uuid >>= λ x.
    (if x.is_spawned
      then done m
      else (let y = reset_spawn x in
          done (insert uuid (record y { info = set_spawn y.info true }) m)))

-- `SpanMoster`: `left` rounds from `i` on.
unfoldable pub span_from : ℕ → ℕ → MonsterMap → Run MonsterMap
unfolding span_one
span_from zero i m = done m
span_from (suc left) i m = span_one m (uuid_of i) >>= span_from left (suc i)

unfoldable pub span_monsters : MonsterMap → Run MonsterMap
unfolding span_from
span_monsters m = span_from monster_size 1 m

-- What `MonsterHit` does to the monster: the move is broken off, the damage taken, and a survivor
-- turns on the player.
unfoldable pub hit : Monster → ℤ → ℤ → Monster
unfolding set_moving take_demage die_unit set_attack_player
hit x socket_fd demage =
    let struck : Monster = record (set_moving x false) { info = take_demage x.info demage } in
    if die_unit struck.info then struck else set_attack_player struck socket_fd

-- `MonsterHit`: the map after it, and whether the message goes to every session.
unfoldable pub monster_hit : MonsterMap → ℤ → ℤ → ℤ → MonsterMap × Bool
monster_hit m code socket_fd demage = elim (lookup code m) [
  | none ↦ (m, false)
  | some x ↦ (insert code (hit x socket_fd demage) m, true)
]
