-- ===== src/Units/Monster.antt =====
-- `BS_Monster_Info`: a monster is a unit with a home, a target and an attack that takes a few ticks.
pub mod Life
pub mod Chase
use bsgame_server.Base.{ℕ, List, Bool, true, false, not, ◌&&◌, if◌then◌else◌}
use bsgame_server.Base.Int.{ℤ, pos, negsuc, ltb_ℤ, eqb_ℤ, add_int32, rem_ℤ}
use bsgame_server.MapInfo.{Rect, in_rect}
use bsgame_server.Units.{UnitInfo, Position, set_type, set_hp}
use bsgame_server.Units

pub record Monster : Type 0 where
  pub info : UnitInfo
  pub open info use *
  pub start_x : ℤ
  pub start_y : ℤ
  pub moving : Bool
  pub attacking : Bool
  pub skill_code : ℤ
  pub target : ℤ
  pub distance : ℤ
  pub tick : ℤ

-- `BS_Monster_Info(uuid)`.
unfoldable pub create : List ℕ → ℕ → ℤ → Monster
unfolding Units.create
create name name_len uuid = record {
  info = Units.create name name_len uuid;
  start_x = pos 0;
  start_y = pos 0;
  moving = true;
  attacking = false;
  skill_code = pos 1;
  target = negsuc 0;
  distance = pos 150;
  tick = negsuc 0;
}

unfoldable pub set_info : Monster → ℕ → ℤ → Monster
unfolding set_type set_hp
set_info m t hp = record m { info = set_hp (set_type m.info t) hp }

unfoldable pub set_spawn_position : Monster → ℤ → ℤ → Monster
set_spawn_position m x y = record m { start_x = x; start_y = y }

unfoldable pub set_attack_player : Monster → ℤ → Monster
set_attack_player m uuid = record m { target = uuid }

unfoldable pub set_moving : Monster → Bool → Monster
set_moving m b = record m { moving = b }

unfoldable pub is_moving : Monster → Bool
is_moving m = m.moving && not m.attacking

unfoldable pub reset_spawn : Monster → Monster
reset_spawn m = record m {
  info = record m.info {
    position = record { x = m.start_x; y = m.start_y; z = pos 100; yaw = 0 };
    hp = pos 100;
  };
  target = negsuc 0;
}

-- `SetTick`: the rounds of an attack are counted modulo 4.
unfoldable pub set_tick : Monster → Monster
set_tick m =
    let tick = rem_ℤ (add_int32 m.tick (pos 1)) 4 in
    if m.attacking
    then record m { tick = tick; attacking = if eqb_ℤ tick (pos 0) then false else true }
    else m

-- `OnTarget`, for a target whose player stands at a position.
unfoldable pub on_target : Monster → Position → Rect → Bool
on_target m p map = if ltb_ℤ (negsuc 0) m.target then in_rect p.x p.y map else false
