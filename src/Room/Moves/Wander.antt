-- ===== src/Room/Moves/Wander.antt =====
-- GameBS/BS_GameRoom.cpp, `MoveMosters`: where a monster without a target can go.
use bsgame_server.Base.{◌≡◌, refl}
use bsgame_server.Base.Int.{ℤ, negsuc}
use bsgame_server.Geometry.{Floats}
use bsgame_server.MapInfo.{Rect}
use bsgame_server.MapInfo.Laws.{Inside, IsOrdered, in_monster_rect_lem}
use bsgame_server.Units.{set_position_yaw}
use bsgame_server.Units.Monster.{Monster}
use bsgame_server.Room.Moves.{moves, move_of, wander}

-- In a rectangle whose sides are not negative, and whatever the floating-point unit computes and the
-- generator draws, a monster that wanders ends inside the rectangle; the message says where it stands,
-- and names no target.
pub wander_lem :
    (f : Floats) (rotate : ℤ → ℤ) (map : Rect) (tick k : ℤ) (x : Monster)
    → IsOrdered map
    → Inside map
        (wander f rotate map tick k x).0.position.x
        (wander f rotate map tick k x).0.position.y
      × ((wander f rotate map tick k x).1
          ≡ moves (move_of (wander f rotate map tick k x).0 (negsuc 0)))
unfolding wander set_position_yaw
wander_lem f rotate map tick k x o = ((in_monster_rect_lem map _ _ o).0, refl)
