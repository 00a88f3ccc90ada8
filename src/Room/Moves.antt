-- ===== src/Room/Moves.antt =====
-- GameBS/BS_GameRoom.cpp, `BS_GameRoom::MoveMosters`: each monster that is free attacks, follows its
-- target or wanders, and the clients are told.
pub mod Wander
pub mod Keep
pub mod Announce
use bsgame_server.Base.{ℕ, suc, List, [], ◌∷◌, Bool, true, false, ◌&&◌, if◌then◌else◌, contains}
use bsgame_server.Base.Int.{ℤ, pos, negsuc, eqb_ℤ, ltb_ℤ, add_int32, rem_ℤ}
use bsgame_server.Base.Run.{Run, done, ◌>>=◌}
use bsgame_server.Geometry.{Floats, double_3_14}
use bsgame_server.MapInfo.{Rect, in_rect, in_monster_rect}
use bsgame_server.Units.{UnitInfo, set_position_yaw}
use bsgame_server.Units.Monster.{Monster, set_tick, set_moving, is_moving, on_target}
use bsgame_server.Units.Monster.Chase.{move_target}
use bsgame_server.Packets.{Move, Attack, make_move_list, make_attack_list}
use bsgame_server.Room.{MonsterMap}
use bsgame_server.Room.Sessions.{SessionMap}
use bsgame_server.Room.State.{Room, send_all, push_all}

-- What a monster adds to the two lists.
pub data Outcome : Type 0 where
  waits : Outcome
  attacks : Attack → Outcome
  moves : Move → Outcome

abbrev pub move_of : Monster → ℤ → Move
move_of x target = record { code = x.uuid; position = x.position; target = target }

unfoldable pub add_outcome : Outcome → List Attack × List Move → List Attack × List Move
add_outcome waits l = l
add_outcome (attacks a) (as', ms) = (a ∷ as', ms)
add_outcome (moves m) (as', ms) = (as', m ∷ ms)

-- The attacks, if there are any, wait in every session for the list of moves, which goes out at once.
unfoldable pub tell_attacks : List Attack → Room → Run Room
tell_attacks [] r = done r
tell_attacks (a ∷ rest) r =
    make_attack_list r.memory (a ∷ rest) >>= λ (b, m). done (push_all b (record r { memory = m }))

-- `rotate k` is what `disRotate` gives if it is asked for the monster `k`.
module _ (f : Floats) (rotate : ℤ → ℤ) where
  open f use {
    int_of_float, float_of_int, double_of_int, int_of_double, double_add, double_mul, double_div,
    double_cos, double_sin,
  }

  -- The monster has a target in the room and on the map.
  unfoldable pub chase : Rect → (ℤ → UnitInfo) → ℤ → Monster → Monster × Outcome
  chase map players target x =
      let (is_attack, x') = move_target f x (players target).position in
      (
        x',
        (if in_rect x'.position.x x'.position.y map && is_attack
            then attacks (record { code = x'.uuid; skill_code = x'.skill_code })
            else moves (move_of x' target)),
      )

  -- It has none: it goes on in its direction, which changes every other time, up to the edge.
  unfoldable pub wander : Rect → ℤ → ℤ → Monster → Monster × Outcome
  wander map tick k x =
      let yaw = if eqb_ℤ tick (pos 1) then rotate k else int_of_float x.position.yaw in
      let step = λ (c : ℤ) (d : ℕ).
        int_of_double (double_add (double_of_int c) (double_mul (double_of_int x.distance) d)) in
      let angle = double_div (double_of_int yaw) double_3_14 in
      let (moved, x1, y1) =
        in_monster_rect map (step x.position.x (double_cos angle))
          (step x.position.y (double_sin angle)) in
      let x' : Monster = record x {
        info = set_position_yaw x.info x1 y1 x.position.z (float_of_int yaw);
      } in
      (x', moves (move_of x' (negsuc 0)))

  -- One round of the loop.
  unfoldable pub move_one : Rect → SessionMap → (ℤ → UnitInfo) → ℤ → ℤ → Monster → Monster × Outcome
  move_one map sessions players tick k x =
      let target = x.target in
      let x' = set_tick x in
      if x'.is_spawned && is_moving x'
      then (if ltb_ℤ (negsuc 0) target
            && contains target sessions
            && on_target x' (players target).position map
          then chase map players target x'
          else wander map tick k x')
      else (set_moving x' true, waits)

  -- The loop: the monsters after it, and the two lists in the order of the map.
  unfoldable pub move_all :
      Rect → SessionMap → (ℤ → UnitInfo) → ℤ → MonsterMap → MonsterMap × (List Attack × List Move)
  move_all map sessions players tick [] = ([], ([], []))
  move_all map sessions players tick ((k, x) ∷ rest) =
      let (x', outcome) = move_one map sessions players tick k x in
      let (rest', lists) = move_all map sessions players tick rest in
      ((k, x') ∷ rest', add_outcome outcome lists)

  unfoldable pub move_monsters : (ℤ → ℤ) → Room → Run Room
  move_monsters results r =
      let (monsters, lists) = move_all r.map r.sessions r.players r.tick r.monsters in
      tell_attacks lists.0 (record r { monsters = monsters }) >>= λ r1.
      make_move_list r1.memory lists.1 >>= λ (b, m).
      (let r2 = send_all results b (record r1 { memory = m }) in
        done (record r2 { tick = rem_ℤ (add_int32 r2.tick (pos 1)) 2 }))
