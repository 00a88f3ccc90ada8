-- ===== src/Room/Task/Roster.antt =====
-- GameBS/BS_GameRoom.cpp, `AddSession`: what its messages say of the players and the monsters of a room.
use bsgame_server.Base.{
  ◌%◌, ◌^◌, ◌≡◌, refl, ap, List, [], ◌∷◌, none, some, if◌then◌else◌, lookup, insert, map, inl, inr,
  Bool-cases,
}
use bsgame_server.Base.Int.{ℤ, to_word, eqb_ℤ, eqb_ℤ_self}
use bsgame_server.Session.{Session}
use bsgame_server.Units.{UnitInfo, get_hp, get_name_len}
use bsgame_server.Units.Monster.{Monster}
use bsgame_server.Packets.{PlayerData, MonsterData}
use bsgame_server.Room.{MonsterMap}
use bsgame_server.Room.Sessions.{SessionMap}
use bsgame_server.Room.Seats.{keys}
use bsgame_server.Room.Entry.{player_data, monster_data, other_players, shown_monsters}

-- A player as the others see it: the low byte of its hit points and of the length of its name.
abbrev pub player_entry : UnitInfo → PlayerData
player_entry u = record {
  player_type = u.unit_type;
  hp = to_word u.hp % 2 ^ 8;
  code = u.uuid;
  position = u.position;
  name_len = u.name_len % 2 ^ 8;
  name = u.name;
}

abbrev pub monster_entry : Monster → MonsterData
monster_entry x = record {
  monster_type = x.unit_type;
  hp = to_word x.hp % 2 ^ 8;
  code = x.uuid;
  target = x.target;
  position = x.position;
  name_len = x.name_len % 2 ^ 8;
  name = x.name;
}

-- The players of the sessions in a room.
abbrev pub player_entries : (ℤ → UnitInfo) → SessionMap → List PlayerData
player_entries players m = map (λ k. player_entry (players k)) (keys m)

-- The monsters on the map.
abbrev pub on_map : MonsterMap → List Monster
on_map [] = []
on_map ((k, x) ∷ rest) = let others = on_map rest in if x.is_spawned then x ∷ others else others

pub player_data-player_entry : (u : UnitInfo) → player_data u ≡ player_entry u
unfolding player_data get_hp get_name_len
player_data-player_entry u = refl

-- The new session is not among the others.
pub other_players-insert :
    (fd : ℤ) (s : Session) (players : ℤ → UnitInfo) (m : SessionMap)
    → lookup fd m ≡ none
    → other_players fd players (insert fd s m) ≡ player_entries players m
unfolding other_players insert lookup player_data get_hp get_name_len
other_players-insert fd s players [] e = rw (eqb_ℤ_self fd) refl
other_players-insert fd s players ((k, t) ∷ rest) e = elim (Bool-cases (eqb_ℤ k fd)) [
  | inl c ↦ absurd (there (rw c at e))
  | inr c ↦ rw c (
      rw c (
        ap (λ l. player_entry (players k) ∷ l)
          (other_players-insert fd s players rest (rw c at e))))
]
  where
    there : some t ≡ none → ⊥
    there p = cc

pub shown_monsters-on_map : (m : MonsterMap) → shown_monsters m ≡ map monster_entry (on_map m)
unfolding shown_monsters monster_data get_hp get_name_len
shown_monsters-on_map [] = refl
shown_monsters-on_map ((k, x) ∷ rest) = elim (Bool-cases x.is_spawned) [
  | inl c ↦ rw c (ap (λ l. monster_entry x ∷ l) (shown_monsters-on_map rest))
  | inr c ↦ rw c (shown_monsters-on_map rest)
]
