-- ===== src/Units/Monster/Chase.antt =====
-- GameBS/BS_Player.cpp, `BS_Monster_Info::MoveTarget` and `CheckAttackTarget`: a monster that follows a
-- player.
use bsgame_server.Base.{ℕ, Bool, true, false, if◌then◌else◌}
use bsgame_server.Base.Int.{ℤ, pos, leb_ℤ, sub_int32}
use bsgame_server.Geometry.{Floats, calculate_angle}
use bsgame_server.Units.{Position}
use bsgame_server.Units.Monster.{Monster}

abbrev with_position : Monster → Position → Monster
with_position m p = record m { info = record m.info { position = p } }

module _ (f : Floats) where
  open f use {
    float_of_int, int_of_float, float_add, float_mul, float_cos, float_sin, float_atan2,
    double_of_int, int_of_double, double_add, double_sqrt, double_pow,
  }

  -- `sqrt(pow(dx, 2) + pow(dy, 2))`, as an `int32`.
  unfoldable pub distance_to : Monster → Position → ℤ
  distance_to m target =
      let square = λ (d : ℤ). double_pow (double_of_int d) (double_of_int (pos 2)) in
      int_of_double (
        double_sqrt (
          double_add (square (sub_int32 m.position.x target.x))
            (square (sub_int32 m.position.y target.y))))

  -- Within 200, the monster turns to the target.
  unfoldable pub check_attack_target : Monster → Position → Bool × Monster
  unfolding distance_to
  check_attack_target m target =
      let theta =
        calculate_angle f (float_of_int m.position.x) (float_of_int m.position.y)
          (float_of_int target.x) (float_of_int target.y) in
      if leb_ℤ (distance_to m target) (pos 200)
      then (true, with_position m (record m.position { yaw = theta }))
      else (false, m)

  -- One step of `_distence` towards the target.
  unfoldable pub step_to : Monster → Position → Monster
  step_to m target =
      let radian =
        float_atan2 (float_of_int (sub_int32 target.y m.position.y))
          (float_of_int (sub_int32 target.x m.position.x)) in
      let step = λ (c : ℤ) (d : ℕ).
        int_of_float (float_add (float_of_int c) (float_mul (float_of_int m.distance) d)) in
      with_position m (record m.position {
        x = step m.position.x (float_cos radian);
        y = step m.position.y (float_sin radian);
      })

  -- Whether the monster attacks, and the monster after that.
  unfoldable pub move_target : Monster → Position → Bool × Monster
  unfolding check_attack_target step_to
  move_target m target =
      if m.attacking
      then (false, m)
      else (let (near, turned) = check_attack_target m target in
          if near then (true, record turned { attacking = true }) else (false, step_to m target))
