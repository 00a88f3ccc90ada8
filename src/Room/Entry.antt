-- ===== src/Room/Entry.antt =====
-- GameBS/BS_GameRoom.cpp, `BS_GameRoom::AddSession`: a client enters the room, hears of everything in
-- it, and is announced to the others.
use bsgame_server.Base.{List, [], ◌∷◌, none, some, if◌then◌else◌, lookup, insert}
use bsgame_server.Base.Int.{ℤ, eqb_ℤ}
use bsgame_server.Base.Run.{Run, done, ◌>>=◌}
use bsgame_server.Units.{UnitInfo, get_hp, get_name_len}
use bsgame_server.Units.Monster.{Monster}
use bsgame_server.Packets.{PlayerData, MonsterData, make_load, make_player, make_my_player}
use bsgame_server.Room.{MonsterMap}
use bsgame_server.Room.Sessions.{SessionMap}
use bsgame_server.Room.State.{Room, send_to, send_others}

-- What a packet says of a player; the announcement of the new one leaves the position out.
unfoldable pub player_data : UnitInfo → PlayerData
unfolding get_hp get_name_len
player_data u = record {
  player_type = u.unit_type;
  hp = get_hp u;
  code = u.uuid;
  position = u.position;
  name_len = get_name_len u;
  name = u.name;
}

unfoldable pub monster_data : Monster → MonsterData
unfolding get_hp get_name_len
monster_data x = record {
  monster_type = x.unit_type;
  hp = get_hp x.info;
  code = x.uuid;
  target = x.target;
  position = x.position;
  name_len = get_name_len x.info;
  name = x.name;
}

-- The players of the other sessions.
unfoldable pub other_players : ℤ → (ℤ → UnitInfo) → SessionMap → List PlayerData
other_players fd players [] = []
other_players fd players ((k, s) ∷ rest) =
    let others = other_players fd players rest in
    if eqb_ℤ k fd then others else player_data (players k) ∷ others

-- The monsters on the map.
unfoldable pub shown_monsters : MonsterMap → List MonsterData
shown_monsters [] = []
shown_monsters ((k, x) ∷ rest) =
    let shown = shown_monsters rest in if x.is_spawned then monster_data x ∷ shown else shown

-- `_sessionMap[fd] = gameSession`: a session that enters again is the one that is there.
unfoldable pub enter : ℤ → Room → Room
enter fd r = record r {
  sessions =
      insert fd (elim (lookup fd r.sessions) [ none ↦ r.outside fd | some s ↦ s ]) r.sessions;
}

unfoldable pub add_session : (ℤ → ℤ) → ℤ → Room → Run Room
add_session results fd room =
    let r = enter fd room in
    let me = player_data (r.players fd) in
    do
      (b1, m1) ←
          make_load r.memory (other_players fd r.players r.sessions) (shown_monsters r.monsters)
      (b2, m2) ← make_player m1 me
      (b3, m3) ← make_my_player m2 me
      done (record (send_to results fd b3 (send_others results b2 fd (send_to results fd b1 r))) {
        memory = m3;
      })
